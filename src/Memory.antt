-- ===== src/Memory.antt =====
-- metrics/memory.rs: the memory total that the dashboard headlines. The numbers are `u64`.
pub mod Marketed
pub mod Topology
mod Tests
use spark_dashboard.Prelude.{
  ℕ, zero, suc, ◌+◌, ◌-◌, ◌*◌, ◌/◌, Bool, Option, none, some, leb, nat_beq, if◌then◌else◌,
}

abbrev pub gib : ℕ
gib = 1073741824

-- The greatest `u64`.
abbrev pub u64_max : ℕ
u64_max = 18446744073709551615

abbrev pub saturating_mul : ℕ → ℕ → ℕ
saturating_mul a b = if leb (a * b) u64_max then a * b else u64_max

abbrev pub div_ceil : ℕ → ℕ → ℕ
div_ceil a b = (a + (b - 1)) / b

-- The powers of two from `p` on, doubled until one is not less than `n`; `fuel` bounds the
-- doublings, and 64 of them pass every `u64`.
pub double_until : ℕ → ℕ → ℕ → ℕ
double_until zero p n = p
double_until (suc fuel) p n = let rest = double_until fuel (2 * p) n in if leb n p then p else rest

-- `u64::next_power_of_two`
pub next_power_of_two : ℕ → ℕ
unfolding double_until
next_power_of_two n = double_until 64 1 n

pub round_up_to_marketed_gib : ℕ → ℕ
unfolding next_power_of_two
round_up_to_marketed_gib bytes =
    if nat_beq bytes 0 then 0 else saturating_mul (next_power_of_two (div_ceil bytes gib)) gib

-- The headline without a total of NVML that is not less than the kernel's.
abbrev kernel_total : Bool → ℕ → ℕ
kernel_total is_unified sys_total_bytes =
    if is_unified then round_up_to_marketed_gib sys_total_bytes else sys_total_bytes

pub select_display_total : Bool → Option ℕ → ℕ → ℕ
unfolding round_up_to_marketed_gib
select_display_total is_unified none sys_total_bytes = kernel_total is_unified sys_total_bytes
select_display_total is_unified (some nvml_total) sys_total_bytes =
    if leb sys_total_bytes nvml_total then nvml_total else kernel_total is_unified sys_total_bytes
