-- ===== src/Gpu.antt =====
-- metrics/gpu.rs: the metrics and events of the GPUs. What NVML answers of a device is a parameter.
pub mod Simulated
pub mod Placed
mod Tests
use mathlib.Core.Option
use spark_dashboard.Prelude.{
  ℕ, ◌*◌, String, Bool, true, false, ◌||◌, Option, none, some, List, [], ◌∷◌, ◌++◌, map, any,
  filterb, bind_some, or_else, or_default, ltb, if◌then◌else◌,
}
use spark_dashboard.Float.{F64}
use spark_dashboard.Detection.PidLists.{has, sort}
use spark_dashboard.Detection.Docker.{dedup}

-- What a call of NVML comes to: its `Result`, with the errors that are told apart.
pub data NvmlResult (A : Type 0) : Type 0 where
  value : A → NvmlResult A
  not_supported : NvmlResult A
  invalid_arg : NvmlResult A
  other_error : NvmlResult A

abbrev pub nvml_optional : {A : Type 0} → NvmlResult A → Option A
nvml_optional (value a) = some a
nvml_optional _ = none

pub record MemoryInfo : Type 0 where
  pub total : ℕ
  pub used : ℕ

-- A process of a device, with the memory that it uses, where NVML knows it.
pub record ComputeProcess : Type 0 where
  pub pid : ℕ
  pub used_gpu_memory : Option ℕ

-- `ThrottleReasons`, of which the program looks at five.
pub record ThrottleReasons : Type 0 where
  pub hw_thermal_slowdown : Bool
  pub sw_thermal_slowdown : Bool
  pub hw_slowdown : Bool
  pub hw_power_brake_slowdown : Bool
  pub sw_power_cap : Bool

-- A device by what NVML answers of it in one tick.
pub record Device : Type 0 where
  pub name : NvmlResult String
  pub utilization : NvmlResult ℕ
  pub memory_info : NvmlResult MemoryInfo
  pub temperature : NvmlResult ℕ
  pub power_usage : NvmlResult ℕ
  pub power_management_limit : NvmlResult ℕ
  pub enforced_power_limit : NvmlResult ℕ
  pub power_management_limit_default : NvmlResult ℕ
  pub power_management_max_limit : NvmlResult ℕ
  pub clock_graphics : NvmlResult ℕ
  pub clock_sm : NvmlResult ℕ
  pub clock_memory : NvmlResult ℕ
  pub fan_speed : NvmlResult ℕ
  pub pcie_receive : NvmlResult ℕ
  pub pcie_send : NvmlResult ℕ
  pub running_compute_processes : NvmlResult (List ComputeProcess)
  pub current_throttle_reasons : NvmlResult ThrottleReasons

-- The monitored devices, with their indexes.
abbrev pub Devices : Type 0
Devices = List (ℕ × Device)

abbrev pub above_zero : Option ℕ → Option ℕ
above_zero none = none
above_zero (some mw) = if ltb 0 mw then some mw else none

unfoldable pub resolve_power_limit_mw : Device → Option ℕ
resolve_power_limit_mw d = above_zero (
    or_else (nvml_optional d.power_management_limit) (
      or_else (nvml_optional d.enforced_power_limit) (
        or_else (nvml_optional d.power_management_limit_default)
          (nvml_optional d.power_management_max_limit))))

unfoldable pub pcie_bytes_per_sec : Option ℕ → Option ℕ → Option ℕ × Option ℕ
pcie_bytes_per_sec (some rx) (some tx) = (some (rx * 1024), some (tx * 1024))
pcie_bytes_per_sec _ _ = (none, none)

pub record GpuMetrics (F : Type 0) : Type 0 where
  pub index : Option ℕ
  pub name : Option String
  pub utilization_percent : Option ℕ
  pub memory_total_bytes : Option ℕ
  pub memory_used_bytes : Option ℕ
  pub temperature_celsius : Option ℕ
  pub power_watts : Option F
  pub power_limit_watts : Option F
  pub clock_graphics_mhz : Option ℕ
  pub clock_sm_mhz : Option ℕ
  pub clock_memory_mhz : Option ℕ
  pub fan_speed_percent : Option ℕ
  pub pcie_rx_bytes_per_sec : Option ℕ
  pub pcie_tx_bytes_per_sec : Option ℕ

abbrev pub empty_gpu_metrics : {F : Type 0} → GpuMetrics F
empty_gpu_metrics = record {
  index = none;
  name = none;
  utilization_percent = none;
  memory_total_bytes = none;
  memory_used_bytes = none;
  temperature_celsius = none;
  power_watts = none;
  power_limit_watts = none;
  clock_graphics_mhz = none;
  clock_sm_mhz = none;
  clock_memory_mhz = none;
  fan_speed_percent = none;
  pcie_rx_bytes_per_sec = none;
  pcie_tx_bytes_per_sec = none;
}

abbrev pub device_pids : Device → List ℕ
device_pids d =
    or_default []
      (Option.map (λ procs. map (λ p. p.pid) procs) (nvml_optional d.running_compute_processes))

abbrev pub collect_device_pids : Devices → List (ℕ × List ℕ)
collect_device_pids devices = map (λ d. (d.0, device_pids d.1)) devices

-- Whether a device's process is one of the PIDs.
abbrev pub runs_some : List ℕ → List ℕ → Bool
runs_some pids dev_pids = any (λ p. has p pids) dev_pids

unfoldable pub gpu_indexes_for_pids : List ℕ → List (ℕ × List ℕ) → List ℕ
unfolding sort
gpu_indexes_for_pids pids lists =
    dedup (sort (map (λ d. d.0) (filterb (λ d. runs_some pids d.1) lists)))

module _ {F : Type 0} (f : F64 F) where
  -- Milliwatts, in watts.
  abbrev pub watts : Option ℕ → Option F
  watts mw = Option.map (λ n. f.div (f.of_ℕ n) (f.of_ℕ 1000)) mw

  unfoldable pub collect_gpu_metrics_for_device : ℕ → Device → GpuMetrics F
  unfolding resolve_power_limit_mw pcie_bytes_per_sec
  collect_gpu_metrics_for_device index d =
      let pcie = pcie_bytes_per_sec (nvml_optional d.pcie_receive) (nvml_optional d.pcie_send) in
      record {
        index = some index;
        name = nvml_optional d.name;
        utilization_percent = nvml_optional d.utilization;
        memory_total_bytes = Option.map (λ info. info.total) (nvml_optional d.memory_info);
        memory_used_bytes = Option.map (λ info. info.used) (nvml_optional d.memory_info);
        temperature_celsius = nvml_optional d.temperature;
        power_watts = watts (nvml_optional d.power_usage);
        power_limit_watts = watts (resolve_power_limit_mw d);
        clock_graphics_mhz = nvml_optional d.clock_graphics;
        clock_sm_mhz = nvml_optional d.clock_sm;
        clock_memory_mhz = nvml_optional d.clock_memory;
        fan_speed_percent = nvml_optional d.fan_speed;
        pcie_rx_bytes_per_sec = pcie.0;
        pcie_tx_bytes_per_sec = pcie.1;
      }

  abbrev pub collect_gpu_metrics : Devices → List (GpuMetrics F)
  collect_gpu_metrics devices = map (λ d. collect_gpu_metrics_for_device d.0 d.1) devices

pub record GpuEvent : Type 0 where
  pub timestamp_ms : ℕ
  pub gpu_index : Option ℕ
  pub event_type : String
  pub detail : String

-- An event that is pushed if a test holds.
abbrev pub event_if : Bool → ℕ → ℕ → String → String → List GpuEvent
event_if false timestamp_ms index event_type detail = []
event_if true timestamp_ms index event_type detail =
    record {
      timestamp_ms = timestamp_ms;
      gpu_index = some index;
      event_type = event_type;
      detail = detail;
    }
    ∷ []

abbrev pub device_events : ℕ → ℕ → Option ThrottleReasons → List GpuEvent
device_events now index none = []
device_events now index (some r) =
    event_if (r.hw_thermal_slowdown || r.sw_thermal_slowdown) now index "thermal"
      "Thermal throttling active"
    ++ event_if r.hw_slowdown now index "throttle" "Hardware slowdown engaged"
    ++ event_if r.hw_power_brake_slowdown now index "power_brake" "Power brake engaged"
    ++ event_if r.sw_power_cap now index "throttle" "Software power cap limiting clocks"

unfoldable pub detect_gpu_events : Devices → ℕ → List GpuEvent
detect_gpu_events [] timestamp_ms = []
detect_gpu_events ((index, d) ∷ devices) timestamp_ms =
    device_events timestamp_ms index (nvml_optional d.current_throttle_reasons)
    ++ detect_gpu_events devices timestamp_ms
