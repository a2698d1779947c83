-- ===== src/Int.antt =====
-- The signed integers, over the native natural numbers, and their conversions.
use spark_dashboard.Prelude.{ℕ, ◌^◌, Option, none, some, ltb, if◌then◌else◌}

-- `negsuc n` is `- (n + 1)`.
pub data ℤ : Type 0 where
  pos : ℕ → ℤ
  negsuc : ℕ → ℤ

-- `try_from` of the unsigned integers of a width.
abbrev pub try_from : ℕ → ℤ → Option ℕ
try_from width (negsuc n) = none
try_from width (pos n) = if ltb n (2 ^ width) then some n else none
