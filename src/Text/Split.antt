-- ===== src/Text/Split.antt =====
-- Splitting texts that are put together.
use Prim.Native.Char.{Char, code}
use spark_dashboard.Prelude.{
  String, ◌≡◌, refl, ap, Bool, true, false, not, none, some, List, [], ◌∷◌, ◌++◌, inl, inr, arith,
  Bool-cases, nat_eq, beq_refl,
}
use spark_dashboard.Text.{append, split, split_once, strip_prefix, contains, push_front}
use spark_dashboard.Text.Chars.{all_chars}

module _ (p : Char → Bool) where
  split-cons :
      (text : String) → (part : String) × (parts : List String) × (split p text ≡ part ∷ parts)
  unfolding split
  split-cons String.[] = (String.[], [], refl)
  split-cons (String.◌∷◌ c text) = elim (Bool-cases (p c)) [
    | inl cut ↦ (String.[], split p text, rw cut refl)
    | inr kept ↦
        let rest = split-cons text in
        (String.◌∷◌ c rest.0, rest.1, rw kept (ap (push_front c) rest.2))
  ]

  pub split-append :
      (a : String) (c : Char) (b : String)
      → p c ≡ true
      → split p (append a (String.◌∷◌ c b)) ≡ split p a ++ split p b
  unfolding split append
  split-append String.[] c b h = rw h refl
  split-append (String.◌∷◌ d a) c b h = elim (Bool-cases (p d)) [
    | inl cut ↦ rw (cut, split-append a c b h) refl
    | inr kept ↦ rw (kept, split-append a c b h, (split-cons a).2) refl
  ]

  pub split-whole :
      (text : String) → all_chars (λ c. not (p c)) text ≡ true → split p text ≡ text ∷ []
  unfolding split all_chars
  split-whole String.[] h = refl
  split-whole (String.◌∷◌ c text) h =
      let whole = split-whole text (ground arith) in
      let kept : p c ≡ false = ground arith in rw (kept, whole) refl

pub all_chars-append :
    (p : Char → Bool) (a b : String)
    → all_chars p a ≡ true
    → all_chars p b ≡ true
    → all_chars p (append a b) ≡ true
unfolding all_chars append
all_chars-append p String.[] b h k = k
all_chars-append p (String.◌∷◌ c a) b h k = ground (arith, all_chars-append p a b)

pub strip_prefix-append : (pre text : String) → strip_prefix pre (append pre text) ≡ some text
unfolding strip_prefix append
strip_prefix-append String.[] text = refl
strip_prefix-append (String.◌∷◌ c pre) text = rw (beq_refl (code c)) (strip_prefix-append pre text)

pub contains-append :
    (a b needle : String) → contains b needle ≡ true → contains (append a b) needle ≡ true
unfolding contains append
contains-append String.[] b needle h = h
contains-append (String.◌∷◌ c a) b needle h = ground (arith, contains-append a b needle)

pub append-nil : (text : String) → append text String.[] ≡ text
unfolding append
append-nil String.[] = refl
append-nil (String.◌∷◌ c text) = ap (String.◌∷◌ c) (append-nil text)

pub split_once-cons :
    (needle : String) (c : Char) (text before after : String)
    → strip_prefix needle (String.◌∷◌ c text) ≡ none
    → split_once needle text ≡ some (before, after)
    → split_once needle (String.◌∷◌ c text) ≡ some (String.◌∷◌ c before, after)
unfolding split_once
split_once-cons needle c text before after absent later = rw (split_once, absent) (rw later refl)
