-- ===== src/Memory/Tests.antt =====
-- The headline of a DGX Spark: 122 GiB are visible of 128.
use spark_dashboard.Prelude.{ℕ, String, ◌≡◌, ◌≤◌, ◌*◌, ◌^◌, some, none, arith}
use spark_dashboard.Float.Sample.{sample}
use spark_dashboard.Memory.Topology.{Meminfo, collect_memory_metrics, collect_memory_metrics-bounds}
use spark_dashboard.Memory.{gib, round_up_to_marketed_gib}
use spark_dashboard.Memory.Marketed.{round_up-IsNextPower}

round_up-IsNextPower_example :
    (k : ℕ) × (round_up_to_marketed_gib (122 * gib) ≡ 2 ^ k * gib)
    × (122 * gib ≤ 2 ^ k * gib)
    × ((j : ℕ) → 122 * gib ≤ 2 ^ j * gib → k ≤ j)
round_up-IsNextPower_example = round_up-IsNextPower (122 * gib) (omega arith) (omega arith)

abbrev meminfo : Meminfo
meminfo = record { mem_total = 122 * gib; mem_available = some (40 * gib); cached = gib }

abbrev as_is : String → String
as_is text = text

collect_memory_metrics-bounds_example :
    let m = collect_memory_metrics as_is sample (some meminfo) none in
    (m.used_bytes ≤ m.total_bytes) × (m.total_bytes ≤ m.display_total_bytes)
collect_memory_metrics-bounds_example =
    collect_memory_metrics-bounds as_is sample (some meminfo) none (omega arith)
