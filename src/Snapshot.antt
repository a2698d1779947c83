-- ===== src/Snapshot.antt =====
-- metrics/mod.rs: the GPUs that are monitored, and the snapshot of a tick.
pub mod Apart
mod Tests
use spark_dashboard.Prelude.{
  ℕ, String, Bool, true, false, Option, none, some, List, [], ◌∷◌, ◌++◌, map, filterb, bind_some,
  or_default, get_elem?, leb, if◌then◌else◌,
}
use spark_dashboard.Float.{F64}
use spark_dashboard.Engine.State.{EngineSnapshot}
use mathlib.Core.Option
use spark_dashboard.Network.{NetworkMetrics}
use spark_dashboard.Network.Interfaces.{Interface, collect_network_metrics}
use spark_dashboard.Memory.Topology.{MemoryMetrics, Meminfo, collect_memory_metrics}
use spark_dashboard.Cpu.{Core, CpuMetrics, collect_cpu_metrics}
use spark_dashboard.Disk.Sampler.{DiskMetrics, DiskIoSampler, Disk, collect_disk_metrics}
use spark_dashboard.Gpu.{
  NvmlResult, nvml_optional, Device, Devices, GpuMetrics, GpuEvent, empty_gpu_metrics,
  collect_device_pids, gpu_indexes_for_pids, collect_gpu_metrics, detect_gpu_events,
}
use spark_dashboard.Gpu.Simulated.{range, simulated_gpus, simulated_gpu_events}

-- NVML at the start: the number of devices, as the two calls give it, and which ones can be opened.
pub record Nvml : Type 0 where
  pub device_count : NvmlResult ℕ
  pub later_device_count : NvmlResult ℕ
  pub opens : ℕ → Bool

-- The indexes that are asked for, all without `--gpu-index`.
unfoldable pub indexes_of : Option ℕ → ℕ → List ℕ
unfolding range
indexes_of none count = range 0 count
indexes_of (some index) count = if leb count index then [] else index ∷ []

-- The indexes of the devices that are open.
unfoldable pub opened : Option Nvml → Option ℕ → List ℕ
unfolding indexes_of
opened none gpu_index = []
opened (some n) gpu_index =
    filterb n.opens (indexes_of gpu_index (or_default 0 (nvml_optional n.device_count)))

abbrev pub simulated_base_index : Option Nvml → ℕ
simulated_base_index nvml = or_default 0 (bind_some nvml (λ n. nvml_optional n.later_device_count))

-- The open devices in a tick, by what NVML answers of each.
abbrev pub devices_at : (ℕ → Device) → List ℕ → Devices
devices_at answers indexes = map (λ i. (i, answers i)) indexes

pub record MetricsSnapshot (F : Type 0) : Type 0 where
  pub timestamp_ms : ℕ
  pub gpu : GpuMetrics F
  pub gpus : List (GpuMetrics F)
  pub cpu : CpuMetrics F
  pub memory : MemoryMetrics
  pub disk : DiskMetrics
  pub network : NetworkMetrics
  pub engines : List (EngineSnapshot F)
  pub gpu_events : List GpuEvent

-- What a tick reads of the host: the time on the wall and, for the disks, of the monotonic clock,
-- what sysinfo, procfs and NVML answer, and the snapshots of the engines.
pub record Host (F : Type 0) : Type 0 where
  pub timestamp_ms : ℕ
  pub now : ℕ
  pub answers : ℕ → Device
  pub meminfo : Option Meminfo
  pub global_cpu_usage : F
  pub cpus : List (Core F)
  pub disks : List Disk
  pub diskstats : Option String
  pub networks : List Interface
  pub engines : List (EngineSnapshot F)

module _ {F : Type 0} where
  abbrev pub stamped : Devices → EngineSnapshot F → EngineSnapshot F
  stamped devices e = record e {
    gpu_indexes = gpu_indexes_for_pids e.pids (collect_device_pids devices);
  }

  abbrev pub first_gpu : List (GpuMetrics F) → GpuMetrics F
  first_gpu gpus = or_default empty_gpu_metrics (get_elem? gpus 0)

module _ {F : Type 0} (f : F64 F) (sin : F → F) (tau : F) (decimals : ℕ → String) where
  abbrev pub all_gpus : Devices → ℕ → ℕ → ℕ → List (GpuMetrics F)
  all_gpus devices simulate_gpus base timestamp_ms =
      collect_gpu_metrics f devices
      ++ simulated_gpus f sin tau decimals simulate_gpus base timestamp_ms

  -- The body of the loop of the collector, with what it keeps of the disks.
  unfoldable pub collect :
      (seconds : ℕ → F) (to_lowercase : String → String)
      → Option Nvml
      → Option ℕ
      → ℕ
      → Host F
      → DiskIoSampler
      → MetricsSnapshot F × DiskIoSampler
  unfolding opened gpu_indexes_for_pids detect_gpu_events simulated_gpus
  collect seconds to_lowercase nvml gpu_index simulate_gpus host sampler =
      let devices = devices_at host.answers (opened nvml gpu_index) in
      let base = simulated_base_index nvml in
      let primary_device = Option.map (λ d. d.1) (get_elem? devices 0) in
      let gpus = all_gpus devices simulate_gpus base host.timestamp_ms in
      let disk = collect_disk_metrics f seconds host.disks host.diskstats host.now sampler in
      (
        record {
          timestamp_ms = host.timestamp_ms;
          gpu = first_gpu gpus;
          gpus = gpus;
          cpu = collect_cpu_metrics host.global_cpu_usage host.cpus;
          memory = collect_memory_metrics to_lowercase f host.meminfo primary_device;
          disk = disk.0;
          network = collect_network_metrics host.networks;
          engines = map (stamped devices) host.engines;
          gpu_events =
              detect_gpu_events devices host.timestamp_ms
              ++ simulated_gpu_events f sin tau decimals simulate_gpus base host.timestamp_ms;
        },
        disk.1,
      )
