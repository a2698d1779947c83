-- ===== src/Float/Sample.antt =====
-- Natural numbers in place of floats, for the tests: division rounds down, subtraction stops at 0,
-- and 1000000 and above is infinite.
use spark_dashboard.Prelude.{ℕ, ◌+◌, ◌-◌, ◌*◌, ◌/◌, false, true, leb, ltb, nat_beq, if◌then◌else◌}
use spark_dashboard.Float.{F64}

abbrev pub sample : F64 ℕ
sample = record {
  zero = 0;
  one = 1;
  add = λ a b. a + b;
  sub = λ a b. a - b;
  mul = λ a b. a * b;
  div = λ a b. a / b;
  max = λ a b. if leb a b then b else a;
  lt = ltb;
  le = leb;
  eq = nat_beq;
  is_nan = λ a. false;
  is_infinite = λ a. leb 1000000 a;
  is_sign_positive = λ a. true;
  greatest = 999999;
  of_ℕ = λ n. n;
  to_u64 = λ a. a;
  round = λ a. a;
}
