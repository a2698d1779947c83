-- ===== src/Memory/Topology.antt =====
-- metrics/memory.rs: whether CPU and GPU share one memory, and the memory metrics of a tick.
use mathlib.Core.Option
use spark_dashboard.Prelude.{
  ℕ, ◌-◌, ◌+◌, ◌%◌, ◌^◌, ◌≤◌, String, Bool, true, false, Option, none, some, List, [], ◌∷◌, any,
  bind_some, or_default, leb, ◌==◌, nat_eq, arith, if◌then◌else◌,
}
use spark_dashboard.Text.{contains}
use spark_dashboard.Float.{F64}
use spark_dashboard.Gpu.{nvml_optional, Device, ComputeProcess}
use spark_dashboard.Memory.{select_display_total, u64_max}
use spark_dashboard.Memory.Marketed.{select_display_total_bound}

abbrev pub unified_families : List String
unified_families =
    "GB10" ∷ "GB200" ∷ "GB300" ∷ "GH200" ∷ "Grace" ∷ "Spark" ∷ "Jetson" ∷ "Tegra" ∷ "Orin"
    ∷ "Xavier" ∷ "Thor" ∷ "TX1" ∷ "TX2" ∷ "Nano" ∷ "AGX" ∷ "DRIVE" ∷ []

abbrev pub abs_diff : ℕ → ℕ → ℕ
abs_diff a b = if leb a b then b - a else a - b

pub record MemoryMetrics : Type 0 where
  pub total_bytes : ℕ
  pub display_total_bytes : ℕ
  pub used_bytes : ℕ
  pub available_bytes : ℕ
  pub cached_bytes : ℕ
  pub gpu_estimated_bytes : Option ℕ
  pub gpu_memory_total_bytes : Option ℕ
  pub gpu_memory_used_bytes : Option ℕ
  pub is_unified : Bool

-- What the crate `procfs` reads of `/proc/meminfo`.
pub record Meminfo : Type 0 where
  pub mem_total : ℕ
  pub mem_available : Option ℕ
  pub cached : ℕ

-- Zeros where it cannot be read.
abbrev pub meminfo_or_zero : Option Meminfo → Meminfo
meminfo_or_zero m = or_default (record { mem_total = 0; mem_available = none; cached = 0 }) m

-- The sum of what the processes use, of 64 bits.
abbrev pub sum_used : List ComputeProcess → ℕ
sum_used [] = 0
sum_used (p ∷ procs) = (or_default 0 p.used_gpu_memory + sum_used procs) % 2 ^ 64

-- `to_lowercase` is that of ASCII.
module _ (to_lowercase : String → String) where
  unfoldable pub matches_unified_gpu_name : Option String → Bool
  unfolding contains
  matches_unified_gpu_name none = false
  matches_unified_gpu_name (some name) =
      any (λ family. contains (to_lowercase name) (to_lowercase family)) unified_families

  module _ {F : Type 0} (f : F64 F) where
    -- The comparison of the sizes, to within a tenth.
    unfoldable pub is_same_size : Option ℕ → ℕ → Bool
    is_same_size none sys_total_bytes = false
    is_same_size (some gpu_total) sys_total_bytes =
        if sys_total_bytes == 0
        then false
        else f.le (f.of_ℕ (abs_diff gpu_total sys_total_bytes))
            (f.mul (f.of_ℕ sys_total_bytes) (f.div (f.of_ℕ 10) (f.of_ℕ 100)))

    unfoldable pub detect_unified_memory : Option String → Option ℕ → ℕ → Bool
    unfolding matches_unified_gpu_name is_same_size
    detect_unified_memory gpu_name gpu_total_bytes sys_total_bytes =
        if matches_unified_gpu_name gpu_name
        then true
        else is_same_size gpu_total_bytes sys_total_bytes

    unfoldable pub collect_memory_metrics : Option Meminfo → Option Device → MemoryMetrics
    unfolding detect_unified_memory
    collect_memory_metrics meminfo device =
        let m = meminfo_or_zero meminfo in
        let available = or_default 0 m.mem_available in
        let info = bind_some device (λ d. nvml_optional d.memory_info) in
        let gpu_total = Option.map (λ i. i.total) info in
        let gpu_name = bind_some device (λ d. nvml_optional d.name) in
        let is_unified = detect_unified_memory gpu_name gpu_total m.mem_total in
        record {
          total_bytes = m.mem_total;
          display_total_bytes = select_display_total is_unified gpu_total m.mem_total;
          used_bytes = m.mem_total - available;
          available_bytes = available;
          cached_bytes = m.cached;
          gpu_estimated_bytes =
              bind_some device
                (λ d. Option.map sum_used (nvml_optional d.running_compute_processes));
          gpu_memory_total_bytes = gpu_total;
          gpu_memory_used_bytes = Option.map (λ i. i.used) info;
          is_unified = is_unified;
        }

    -- Whatever NVML answers, the memory used is at most the total that the kernel sees, and that is at
    -- most the headline total, for a total of 64 bits.
    pub collect_memory_metrics-bounds :
        (meminfo : Option Meminfo) (device : Option Device)
        → (meminfo_or_zero meminfo).mem_total ≤ u64_max
        → let m = collect_memory_metrics meminfo device in
          (m.used_bytes ≤ m.total_bytes) × (m.total_bytes ≤ m.display_total_bytes)
    unfolding collect_memory_metrics
    collect_memory_metrics-bounds meminfo device h =
        (omega arith, select_display_total_bound _ _ (meminfo_or_zero meminfo).mem_total h)
