-- ===== src/Memory/Marketed.antt =====
-- metrics/memory.rs: the rounding reaches the next power of two GiB, and the headline is never less
-- than what the kernel sees.
use native.Mathlib.Nat.{pow-succ', pow-le-pow_right}
use mathlib.Core.Path.{subst}
use spark_dashboard.Prelude.{
  ℕ, zero, suc, ◌+◌, ◌*◌, ◌^◌, ◌≤◌, ◌<◌, ◌≡◌, refl, Bool, true, false, Option, inl, inr, arith, leb,
  leb→le, le→leb, nat_beq, Bool-cases,
}
use spark_dashboard.Memory.{
  gib, u64_max, div_ceil, double_until, next_power_of_two, round_up_to_marketed_gib,
  select_display_total,
}

-- `p` is the least power of two that is not less than `n`.
abbrev pub IsNextPower : ℕ → ℕ → Type 0
IsNextPower n p = (k : ℕ) × (p ≡ 2 ^ k) × (n ≤ p) × ((j : ℕ) → n ≤ 2 ^ j → k ≤ j)

not_yet : (k n : ℕ) → 2 ^ k < n → (j : ℕ) → n ≤ 2 ^ j → k < j
not_yet k n h j g = elim (Bool-cases (leb j k)) [
  | inl le ↦ absurd (omega (arith, pow-le-pow_right {n = 2} (omega arith) (leb→le j k le)))
  | inr gt ↦ ground arith
]

double_until-IsNextPower :
    (fuel k n : ℕ)
    → ((j : ℕ) → n ≤ 2 ^ j → k ≤ j)
    → n ≤ 2 ^ (fuel + k)
    → IsNextPower n (double_until fuel (2 ^ k) n)
unfolding double_until
double_until-IsNextPower zero k n least enough =
    let start : 0 + k ≡ k = omega arith in (k, refl, subst (λ e. n ≤ 2 ^ e) start enough, least)
double_until-IsNextPower (suc fuel) k n least enough = elim (Bool-cases (leb n (2 ^ k))) [
  | inl le ↦ rw le (k, refl, leb→le n _ le, least)
  | inr gt ↦
      let shift : suc fuel + k ≡ fuel + suc k = omega arith in
      rw (gt, ← pow-succ' 2 k)
        (double_until-IsNextPower fuel (suc k) n (not_yet k n (ground arith))
          (subst (λ e. n ≤ 2 ^ e) shift enough))
]

next_power_of_two-IsNextPower : (n : ℕ) → n ≤ 2 ^ 64 → IsNextPower n (next_power_of_two n)
unfolding next_power_of_two
next_power_of_two-IsNextPower n h = double_until-IsNextPower 64 0 n (λ j g. ground arith) h

-- The headline for a memory of more than zero and at most 2^63 bytes is rounded up to the least power
-- of two GiB that holds it.
pub round_up-IsNextPower :
    (bytes : ℕ)
    → 0 < bytes
    → bytes ≤ 2 ^ 63
    → (k : ℕ) × (round_up_to_marketed_gib bytes ≡ 2 ^ k * gib)
      × (bytes ≤ 2 ^ k * gib)
      × ((j : ℕ) → bytes ≤ 2 ^ j * gib → k ≤ j)
unfolding round_up_to_marketed_gib
round_up-IsNextPower bytes pos small =
    let next = next_power_of_two-IsNextPower (div_ceil bytes gib) (omega arith) in
    let bounded = pow-le-pow_right {n = 2} (omega arith) (next.3 33 (omega arith)) in
    let nonzero : nat_beq bytes 0 ≡ false = ground arith in
    let fits : leb (2 ^ next.0 * gib) u64_max ≡ true = le→leb _ u64_max (omega arith) in
    let enough : div_ceil bytes gib ≤ 2 ^ next.0 =
      subst (λ p. div_ceil bytes gib ≤ p) next.1 next.2 in
    (next.0, rw (nonzero, next.1, fits) refl, omega arith, λ j h. next.3 j (omega arith))

-- The headline is never less than what the kernel sees, for every `u64`.
pub select_display_total_bound :
    (is_unified : Bool) (gpu_total : Option ℕ) (sys_total : ℕ)
    → sys_total ≤ u64_max
    → sys_total ≤ select_display_total is_unified gpu_total sys_total
unfolding select_display_total round_up_to_marketed_gib
select_display_total_bound is_unified gpu_total sys_total h =
    ground (arith, (next_power_of_two-IsNextPower (div_ceil sys_total gib) (omega arith)).2)
