-- ===== src/Snapshot/Tests.antt =====
-- A host with two GPUs, of which the second cannot be opened, and one fictive GPU.
use spark_dashboard.Prelude.{ℕ, String, refl, none, some, [], ◌∷◌, arith, ltb}
use spark_dashboard.Float.Sample.{sample}
use spark_dashboard.Detection.PidLists.{IsIncreasing}
use spark_dashboard.Gpu.{value, not_supported, Device}
use spark_dashboard.Gpu.Simulated.{range}
use spark_dashboard.Snapshot.{Nvml, opened, simulated_base_index, devices_at, all_gpus}
use spark_dashboard.Snapshot.Apart.{HasIndexes, all_gpus-apart}

abbrev nvml : Nvml
nvml = record { device_count = value 2; later_device_count = value 2; opens = λ i. ltb i 1 }

abbrev silent : Device
silent = record {
  name = not_supported;
  utilization = not_supported;
  memory_info = not_supported;
  temperature = not_supported;
  power_usage = not_supported;
  power_management_limit = not_supported;
  enforced_power_limit = not_supported;
  power_management_limit_default = not_supported;
  power_management_max_limit = not_supported;
  clock_graphics = not_supported;
  clock_sm = not_supported;
  clock_memory = not_supported;
  fan_speed = not_supported;
  pcie_receive = not_supported;
  pcie_send = not_supported;
  running_compute_processes = not_supported;
  current_throttle_reasons = not_supported;
}

abbrev flat : ℕ → ℕ
flat x = 0

abbrev no_decimals : ℕ → String
no_decimals n = "n"

abbrev silently : ℕ → Device
silently i = silent

all_gpus-apart_example :
    HasIndexes sample flat 6 no_decimals
      (all_gpus sample flat 6 no_decimals
        (devices_at silently (opened (some nvml) none))
        1
        (simulated_base_index (some nvml))
        5)
      (0 ∷ 2 ∷ [])
    × IsIncreasing (0 ∷ 2 ∷ [])
unfolding opened range
all_gpus-apart_example =
    all_gpus-apart sample flat 6 no_decimals nvml none silently 2 1 5 refl refl (omega arith)
