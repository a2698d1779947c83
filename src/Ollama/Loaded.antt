-- ===== src/Ollama/Loaded.antt =====
-- engines/ollama.rs: the list of the loaded models.
use spark_dashboard.Prelude.{
  ℕ, ◌^◌, ◌<◌, String, ◌≡◌, refl, sym, subst, ◌∙◌, Bool, true, false, not, Option, none, some, List,
  [], ◌∷◌, inl, inr, arith, bind_some, or_default, or_else, ltb, ◌==◌, nat_eq, string_eq, filterb,
  All, Bool-cases, Option-cases, if◌then◌else◌,
}
use spark_dashboard.Text.Chars.{text_le}
use spark_dashboard.Int.{ℤ, pos, negsuc, try_from}
use spark_dashboard.Sorting.{sort, insert, IsSorted, sort-IsSorted, filterb-sort}
use spark_dashboard.Engine.Types.{LoadedModel}
use spark_dashboard.Ollama.Adapter.{
  PsModel, PsResponse, loaded_model, filter_map, filter_option, bytes, name_le, is_shown,
  is_zero_time,
}

not-true : (b : Bool) → not b ≡ true → b ≡ false
not-true true h = cc
not-true false h = refl

text_le_refl : (a : String) → text_le a a ≡ true
unfolding text_le
text_le_refl String.[] = refl
text_le_refl (String.◌∷◌ c a) = let rest = text_le_refl a in ground arith

text_le-total : (a b : String) → text_le a b ≡ false → text_le b a ≡ true
unfolding text_le
text_le-total String.[] b h = cc
text_le-total (String.◌∷◌ c a) String.[] h = refl
text_le-total (String.◌∷◌ c a) (String.◌∷◌ d b) h = let rest = text_le-total a b in ground arith

-- A model as the wire promises it.
abbrev pub IsShowable : LoadedModel → Type 0
IsShowable m =
    (is_shown m.name ≡ true)
    × (m.size_bytes < 2 ^ 64)
    × (m.vram_bytes < 2 ^ 64)
    × ((n : ℕ) → m.context_length ≡ some n → (0 < n) × (n < 2 ^ 32))
    × ((t : String) → m.expires_at ≡ some t → (is_shown t ≡ true) × (is_zero_time t ≡ false))

filter_option-holds :
    {A : Type 0} (p : A → Bool) (o : Option A) (a : A)
    → filter_option p o ≡ some a
    → (p a ≡ true) × (o ≡ some a)
filter_option-holds p none a = λ h. cc
filter_option-holds p (some b) a = elim (Bool-cases (p b)) [
  | inl kept ↦ rw kept (λ h. (subst (λ x. p (or_default b x) ≡ true) h kept, h))
  | inr gone ↦ rw gone (λ h. cc)
]

try_from-bound :
    (width : ℕ) (z : Option ℤ) (n : ℕ) → bind_some z (try_from width) ≡ some n → n < 2 ^ width
try_from-bound width none n h = cc
try_from-bound width (some (negsuc m)) n h = cc
try_from-bound width (some (pos m)) n h = ground arith

bytes-bound : (z : Option ℤ) → bytes z < 2 ^ 64
bytes-bound z = elim (Option-cases (bind_some z (try_from 64))) [
  | inl absent ↦ rw absent (omega arith)
  | inr (n, there) ↦ rw there (try_from-bound 64 z n there)
]

-- An expiry that is read has characters and is not the zero time.
expiry-Shown :
    (entry : PsModel) (t : String)
    → filter_option (λ s. not (is_zero_time s)) (filter_option is_shown entry.expires_at) ≡ some t
    → (is_shown t ≡ true) × (is_zero_time t ≡ false)
expiry-Shown entry t h =
    let (dated, present) = filter_option-holds (λ s. not (is_zero_time s)) _ t h in
    ((filter_option-holds is_shown _ t present).0, not-true (is_zero_time t) dated)

context-bound :
    (z : Option ℤ) (n : ℕ)
    → filter_option (ltb 0) (bind_some z (try_from 32)) ≡ some n
    → (0 < n) × (n < 2 ^ 32)
context-bound z n h =
    let (above, there) = filter_option-holds (ltb 0) _ n h in
    (ground arith, try_from-bound 32 z n there)

name-Shown :
    (entry : PsModel) (name : String)
    → or_else (filter_option is_shown entry.name) (filter_option is_shown entry.model) ≡ some name
    → is_shown name ≡ true
name-Shown entry name = elim (Option-cases (filter_option is_shown entry.name)) [
  | inl absent ↦ rw absent (λ h. (filter_option-holds is_shown _ name h).0)
  | inr (own, there) ↦ rw there (λ h. (filter_option-holds is_shown _ name (there ∙ h)).0)
]

loaded_model-IsShowable :
    (entry : PsModel) (m : LoadedModel) → loaded_model entry ≡ some m → IsShowable m
unfolding loaded_model
loaded_model-IsShowable entry m =
    elim (Option-cases
      (or_else (filter_option is_shown entry.name) (filter_option is_shown entry.model))) [
        | inl nameless ↦ rw (loaded_model, nameless) (λ h. cc)
        | inr (name, named) ↦
            rw (loaded_model, named)
              (λ h.
                subst (λ o. IsShowable (or_default m o)) h
                  (
                    name-Shown entry name named,
                    bytes-bound entry.size,
                    bytes-bound entry.size_vram,
                    context-bound entry.context_length,
                    expiry-Shown entry,
                  ))
      ]

All-filter_map : (entries : List PsModel) → All IsShowable (filter_map loaded_model entries)
unfolding filter_map
All-filter_map [] = tt
All-filter_map (entry ∷ entries) =
    let rest = filter_map loaded_model entries in
    let shut : Option LoadedModel → List LoadedModel =
      λ o. elim o [ some m ↦ m ∷ rest | none ↦ rest ] in
    elim (Option-cases (loaded_model entry)) [
      | inl left_out ↦ subst (λ o. All IsShowable (shut o)) (sym left_out) (All-filter_map entries)
      | inr (m, listed) ↦
          subst (λ o. All IsShowable (shut o)) (sym listed)
            (loaded_model-IsShowable entry m listed, All-filter_map entries)
    ]

-- The list of a body's entries: in the order of their names, entries of one name in the order of the
-- body, none lost, none made up.
abbrev pub IsListing : List PsModel → List LoadedModel → Type 0
IsListing entries models =
    IsSorted name_le models
    × All IsShowable models
    × ((name : String)
        → filterb (λ m. m.name == name) models
          ≡ filterb (λ m. m.name == name) (filter_map loaded_model entries))

same_name-tied :
    (name : String) (a b : LoadedModel)
    → (a.name == name) ≡ true
    → (b.name == name) ≡ true
    → name_le a b ≡ true
same_name-tied name a b is_a is_b =
    let same : a.name ≡ b.name =
      (string_eq.beq_iff a.name name).0 is_a ∙ sym ((string_eq.beq_iff b.name name).0 is_b) in
    subst (λ n. text_le a.name n ≡ true) same (text_le_refl a.name)

All-insert :
    {A : Type 0} (P : A → Type 0) (le : A → A → Bool) (x : A) (l : List A)
    → P x
    → All P l
    → All P (insert le x l)
unfolding insert
All-insert P le x [] here h = (here, tt)
All-insert P le x (y ∷ l) here h = elim (Bool-cases (le x y)) [
  | inl first ↦
      subst (λ b. All P (if b then x ∷ y ∷ l else y ∷ insert le x l)) (sym first) (here, h)
  | inr after ↦
      subst (λ b. All P (if b then x ∷ y ∷ l else y ∷ insert le x l)) (sym after)
        (h.0, All-insert P le x l here h.1)
]

All-sort :
    {A : Type 0} (P : A → Type 0) (le : A → A → Bool) (l : List A) → All P l → All P (sort le l)
unfolding sort
All-sort P le [] h = tt
All-sort P le (x ∷ l) h = All-insert P le x (sort le l) h.0 (All-sort P le l h.1)

module _ (read_response : String → Option PsResponse) where
  pub IsListing-sort :
      (response : PsResponse)
      → IsListing response.models (sort name_le (filter_map loaded_model response.models))
  IsListing-sort response = (
    sort-IsSorted name_le (λ a b. text_le-total a.name b.name) _,
    All-sort IsShowable name_le _ (All-filter_map response.models),
    λ name. filterb-sort name_le (λ m. m.name == name) (same_name-tied name) _,
  )
