-- ===== src/Text/Numbers.antt =====
-- What `parse::<u16>` and `parse::<u32>` can return.
use Prim.Native.Char.{code}
use spark_dashboard.Prelude.{
  ℕ, ◌<◌, String, ◌≡◌, some, inl, inr, arith, Bool-cases, Option-cases, ◌==◌, nat_eq,
}
use spark_dashboard.Text.{read_digits, below, read_some, parse_uint}

below_bound : (bound n m : ℕ) → below bound n ≡ some m → m < bound
below_bound bound n m h = ground arith

read_some_bound : (bound : ℕ) (text : String) (n : ℕ) → read_some bound text ≡ some n → n < bound
read_some_bound bound String.[] n h = cc
read_some_bound bound (String.◌∷◌ c text) n h =
    elim (Option-cases (read_digits 0 (String.◌∷◌ c text))) [
      | inl bad ↦ ground (arith, bad)
      | inr (m, good) ↦ below_bound bound m n (ground (arith, good))
    ]

pub parse_uint_bound :
    (bound : ℕ) (text : String) (n : ℕ) → parse_uint bound text ≡ some n → n < bound
unfolding parse_uint
parse_uint_bound bound String.[] n h = cc
parse_uint_bound bound (String.◌∷◌ c text) n h = elim (Bool-cases (code c == 43)) [
  | inl plus ↦ read_some_bound bound text n (ground (arith, plus))
  | inr digit ↦ read_some_bound bound (String.◌∷◌ c text) n (ground (arith, digit))
]
