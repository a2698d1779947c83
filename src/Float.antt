-- ===== src/Float.antt =====
-- The 64-bit floats, by the operations that the program uses. Every model that computes with floats
-- takes their type `F` and these operations as an argument; a theorem that needs a law of IEEE 754
-- takes it as a hypothesis.
pub mod Sample
use spark_dashboard.Prelude.{ℕ, Bool}

pub record F64 (F : Type 0) : Type 0 where
  pub zero : F
  pub one : F
  pub add : F → F → F
  pub sub : F → F → F
  pub mul : F → F → F
  pub div : F → F → F
  -- `f64::max`, which prefers a number to a NaN
  pub max : F → F → F
  pub lt : F → F → Bool
  pub le : F → F → Bool
  -- `==`, false on a NaN
  pub eq : F → F → Bool
  pub is_nan : F → Bool
  pub is_infinite : F → Bool
  pub is_sign_positive : F → Bool
  -- `f64::MAX`
  pub greatest : F
  -- `as f64` and `as u64`, and `f64::round`
  pub of_ℕ : ℕ → F
  pub to_u64 : F → ℕ
  pub round : F → F
