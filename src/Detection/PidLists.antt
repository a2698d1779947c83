-- ===== src/Detection/PidLists.antt =====
-- engines/detector.rs: lists of PIDs, searched by `contains` and sorted.
use spark_dashboard.Prelude.{
  ℕ, String, ◌<◌, ◌≡◌, refl, ◌∙◌, Bool, false, ◌||◌, List, [], ◌∷◌, ◌++◌, any, All, arith, ◌==◌,
  nat_eq, nat_beq_iff, string_eq, leb, if◌then◌else◌, Bool-cases, inl, inr,
}

-- `contains`
abbrev pub has : ℕ → List ℕ → Bool
has x xs = any (λ y. y == x) xs

abbrev pub has_text : String → List String → Bool
has_text x xs = any (λ y. y == x) xs

-- `sort_unstable`, on numbers
abbrev pub insert_sorted : ℕ → List ℕ → List ℕ
insert_sorted x [] = x ∷ []
insert_sorted x (y ∷ ys) = let rest = insert_sorted x ys in if leb x y then x ∷ y ∷ ys else y ∷ rest

unfoldable pub sort : List ℕ → List ℕ
sort [] = []
sort (x ∷ xs) = insert_sorted x (sort xs)

pub has-append : (p : ℕ) (xs ys : List ℕ) → has p (xs ++ ys) ≡ (has p xs || has p ys)
has-append p [] ys = refl
has-append p (x ∷ xs) ys = ground (arith, has-append p xs ys)

has-insert_sorted : (p x : ℕ) (xs : List ℕ) → has p (insert_sorted x xs) ≡ has p (x ∷ xs)
has-insert_sorted p x [] = refl
has-insert_sorted p x (y ∷ ys) = ground (arith, has-insert_sorted p x ys)

pub has-sort : (p : ℕ) (xs : List ℕ) → has p (sort xs) ≡ has p xs
unfolding sort
has-sort p [] = refl
has-sort p (x ∷ xs) = ground (arith, has-insert_sorted p x (sort xs), has-sort p xs)

-- No PID stands in the list twice.
abbrev pub Distinct : List ℕ → Type 0
Distinct [] = Unit
Distinct (x ∷ xs) = (has x xs ≡ false) × Distinct xs

abbrev pub IsIncreasing : List ℕ → Type 0
IsIncreasing [] = Unit
IsIncreasing (x ∷ xs) = All (λ y. x < y) xs × IsIncreasing xs

All-insert_sorted :
    (z x : ℕ) (xs : List ℕ) → z < x → All (λ y. z < y) xs → All (λ y. z < y) (insert_sorted x xs)
All-insert_sorted z x [] h hs = (h, tt)
All-insert_sorted z x (y ∷ ys) h hs = elim (Bool-cases (leb x y)) [
  | inl first ↦ rw first (h, hs)
  | inr later ↦ rw later (hs.0, All-insert_sorted z x ys h hs.1)
]

All-above : (x y : ℕ) (ys : List ℕ) → x < y → All (λ z. y < z) ys → All (λ z. x < z) ys
All-above x y [] h hs = tt
All-above x y (z ∷ zs) h hs = (omega (arith, hs.0), All-above x y zs h hs.1)

IsIncreasing-insert_sorted :
    (x : ℕ) (xs : List ℕ) → has x xs ≡ false → IsIncreasing xs → IsIncreasing (insert_sorted x xs)
IsIncreasing-insert_sorted x [] new h = (tt, tt)
IsIncreasing-insert_sorted x (y ∷ ys) new h = elim (Bool-cases (leb x y)) [
  | inl first ↦
      let below : x < y = ground (arith, nat_beq_iff y x) in
      rw first ((below, All-above x y ys below h.0), h)
  | inr later ↦ rw later (
    All-insert_sorted y x ys (ground arith) h.0,
    IsIncreasing-insert_sorted x ys (ground arith) h.1,
  )
]

-- A list in which no PID stands twice is sorted strictly.
pub IsIncreasing-sort : (xs : List ℕ) → Distinct xs → IsIncreasing (sort xs)
unfolding sort
IsIncreasing-sort [] d = tt
IsIncreasing-sort (x ∷ xs) d =
    IsIncreasing-insert_sorted x (sort xs) (has-sort x xs ∙ d.0) (IsIncreasing-sort xs d.1)

pub Distinct-append_one :
    (x : ℕ) (xs : List ℕ) → has x xs ≡ false → Distinct xs → Distinct (xs ++ x ∷ [])
Distinct-append_one x [] h d = (refl, tt)
Distinct-append_one x (y ∷ ys) h d = (
  ground (arith, has-append y ys (x ∷ []), nat_beq_iff x y, nat_beq_iff y x),
  Distinct-append_one x ys (ground arith) d.1,
)
