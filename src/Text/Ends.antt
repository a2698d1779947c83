-- ===== src/Text/Ends.antt =====
-- What the searches in a text find: a suffix, a part in the middle, and what follows a separator.
use Prim.Native.Char.{Char, code}
use text.Mathlib.TextEquality.{Char-path}
use spark_dashboard.Prelude.{
  nat_eq, subst, String, ◌≡◌, ◌↔◌, ◌⊎◌, inl, inr, refl, ap, sym, ◌∙◌, Bool, true, false, not, ◌||◌,
  none, some, arith, ◌==◌, string_eq, Bool-cases, Option-cases, beq_refl,
}
use spark_dashboard.Text.{
  append, ends_with, contains, starts_with, strip_prefix, rsplit_once, last_part,
}
use spark_dashboard.Text.Chars.{all_chars}
use spark_dashboard.Text.Split.{strip_prefix-append, contains-append}

-- A text ends with another where that comes after some text.
abbrev pub EndsWith : String → String → Type 0
EndsWith text suffix = (before : String) × (text ≡ append before suffix)

-- A text has another in it.
abbrev pub Contains : String → String → Type 0
Contains text part =
    (before : String) × (after : String) × (text ≡ append before (append part after))

or_cases : (a b : Bool) → (a || b) ≡ true → (a ≡ true) ⊎ (b ≡ true)
or_cases true b h = inl refl
or_cases false b h = inr h

ends_with-EndsWith : (text suffix : String) → ends_with text suffix ≡ true → EndsWith text suffix
unfolding ends_with append
ends_with-EndsWith String.[] suffix h = (String.[], (string_eq.beq_iff String.[] suffix).0 h)
ends_with-EndsWith (String.◌∷◌ c text) suffix h = elim (or_cases _ (ends_with text suffix) h) [
  | inl whole ↦ (String.[], (string_eq.beq_iff (String.◌∷◌ c text) suffix).0 whole)
  | inr later ↦
      let (before, split) = ends_with-EndsWith text suffix later in
      (String.◌∷◌ c before, ap (String.◌∷◌ c) split)
]

ends_with-whole : (text : String) → ends_with text text ≡ true
unfolding ends_with
ends_with-whole String.[] = beq_refl String.[]
ends_with-whole (String.◌∷◌ c text) = rw (beq_refl (String.◌∷◌ c text)) refl

ends_with-append : (before suffix : String) → ends_with (append before suffix) suffix ≡ true
unfolding ends_with append
ends_with-append String.[] suffix = ends_with-whole suffix
ends_with-append (String.◌∷◌ c before) suffix = ground (arith, ends_with-append before suffix)

pub ends_with_iff : (text suffix : String) → (ends_with text suffix ≡ true) ↔ EndsWith text suffix
ends_with_iff text suffix = (
  ends_with-EndsWith text suffix,
  (λ (before, split). ap (λ t. ends_with t suffix) split ∙ ends_with-append before suffix),
)

strip_prefix-split :
    (pre text rest : String) → strip_prefix pre text ≡ some rest → text ≡ append pre rest
unfolding strip_prefix append
strip_prefix-split String.[] text rest h = ground arith
strip_prefix-split (String.◌∷◌ a pre) String.[] rest h = cc
strip_prefix-split (String.◌∷◌ a pre) (String.◌∷◌ c text) rest h =
    elim (Bool-cases (code a == code c)) [
      | inl same ↦
          let e : a ≡ c = Char-path a c ((nat_eq.beq_iff (code a) (code c)).0 same) in
          let split = strip_prefix-split pre text rest (ground (arith, same)) in
          ap (λ d. String.◌∷◌ d text) (sym e) ∙ ap (String.◌∷◌ a) split
      | inr other ↦ ground (arith, other)
    ]

contains-Contains : (text part : String) → contains text part ≡ true → Contains text part
unfolding contains append starts_with
contains-Contains String.[] part h = elim (Option-cases (strip_prefix part String.[])) [
  | inl nothing ↦ ground (arith, nothing)
  | inr (rest, found) ↦ (String.[], rest, strip_prefix-split part String.[] rest found)
]
contains-Contains (String.◌∷◌ c text) part h =
    elim (Option-cases (strip_prefix part (String.◌∷◌ c text))) [
      | inr (rest, found) ↦ (String.[], rest, strip_prefix-split part _ rest found)
      | inl nothing ↦
          let (before, after, split) = contains-Contains text part (ground (arith, nothing)) in
          (String.◌∷◌ c before, after, ap (String.◌∷◌ c) split)
    ]

contains_start : (part after : String) → contains (append part after) part ≡ true
unfolding contains starts_with append strip_prefix
contains_start String.[] String.[] = refl
contains_start String.[] (String.◌∷◌ c after) = refl
contains_start (String.◌∷◌ c part) after =
    rw (beq_refl (code c)) (rw (strip_prefix-append part after) refl)

pub contains_iff : (text part : String) → (contains text part ≡ true) ↔ Contains text part
contains_iff text part = (
  contains-Contains text part,
  (λ (before, after, split).
      ap (λ t. contains t part) split
      ∙ contains-append before (append part after) part (contains_start part after)),
)

module _ (p : Char → Bool) where
  -- The whole of a text without a separator, or what comes after a separator.
  abbrev pub IsLastPart : String → String → Type 0
  IsLastPart part text =
      (text ≡ part)
      ⊎ ((before : String) × (c : Char) × (p c ≡ true) × (text ≡ append before (String.◌∷◌ c part)))

  -- A text cut at a separator.
  abbrev IsCut : String → String × String → Type 0
  IsCut text (before, after) =
      (c : Char) × (p c ≡ true) × (text ≡ append before (String.◌∷◌ c after))

  rsplit_once-split :
      (text before after : String)
      → rsplit_once p text ≡ some (before, after)
      → (c : Char) × (p c ≡ true) × (text ≡ append before (String.◌∷◌ c after))
  unfolding rsplit_once append
  rsplit_once-split String.[] before after h = cc
  rsplit_once-split (String.◌∷◌ d text) before after h = elim (Option-cases (rsplit_once p text)) [
    | inr ((b, a), found) ↦
        let e : (String.◌∷◌ d b, a) ≡ (before, after) = ground (arith, found) in
        let (c, is, split) = rsplit_once-split text b a found in
        subst (IsCut (String.◌∷◌ d text)) e (c, is, ap (String.◌∷◌ d) split)
    | inl nothing ↦ elim (Bool-cases (p d)) [
      | inl is ↦
          let e : (String.[], text) ≡ (before, after) = ground (arith, nothing, is) in
          subst (IsCut (String.◌∷◌ d text)) e (d, is, refl)
      | inr other ↦ ground (arith, nothing, other)
    ]
  ]

  last_part-IsLastPart : (text : String) → IsLastPart (last_part p text) text
  unfolding last_part
  last_part-IsLastPart text = elim (Option-cases (rsplit_once p text)) [
    | inl nothing ↦ rw (last_part, nothing) (inl refl)
    | inr ((before, after), found) ↦
        let (c, is, split) = rsplit_once-split text before after found in
        rw (last_part, found) (inr (before, c, is, split))
  ]

  rsplit_once-none :
      (text : String) → all_chars (λ c. not (p c)) text ≡ true → rsplit_once p text ≡ none
  unfolding rsplit_once all_chars
  rsplit_once-none String.[] h = refl
  rsplit_once-none (String.◌∷◌ c text) h =
      let kept : p c ≡ false = ground arith in
      rw (rsplit_once-none text (ground arith)) (rw kept refl)

  rsplit_once-append :
      (before after : String) (c : Char)
      → p c ≡ true
      → rsplit_once p after ≡ none
      → rsplit_once p (append before (String.◌∷◌ c after)) ≡ some (before, after)
  unfolding rsplit_once append
  rsplit_once-append String.[] after c is h = rw h (rw is refl)
  rsplit_once-append (String.◌∷◌ d before) after c is h =
      rw (rsplit_once-append before after c is h) refl

  pub last_part_iff :
      (part text : String)
      → all_chars (λ c. not (p c)) part ≡ true
      → (last_part p text ≡ part) ↔ IsLastPart part text
  unfolding last_part
  last_part_iff part text h = (
    (λ same. rw (← same) (last_part-IsLastPart text)),
    (λ found. elim found [
      | inl whole ↦ rw whole (rw (last_part, rsplit_once-none part h) refl)
      | inr (before, c, is, split) ↦
          rw split
            (rw (last_part, rsplit_once-append before part c is (rsplit_once-none part h)) refl)
    ]),
  )
