-- ===== src/Gpu/Simulated.antt =====
-- metrics/gpu_sim.rs: the fictive GPUs. The sine, the constant TAU and the decimals of a number are
-- parameters; a literal like `0.4` is the quotient of two integers, which rounds to the same float.
use spark_dashboard.Prelude.{
  ℕ, zero, suc, ◌+◌, ◌*◌, ◌%◌, ◌^◌, String, some, List, [], ◌∷◌, ◌++◌, map, leb, if◌then◌else◌,
}
use spark_dashboard.Text.{append}
use spark_dashboard.Float.{F64}
use spark_dashboard.Gpu.{GpuMetrics, GpuEvent}

-- `start..` for a number of steps
unfoldable pub range : ℕ → ℕ → List ℕ
range start zero = []
range start (suc n) = start ∷ range (suc start) n

abbrev pub vram_total_bytes : ℕ
vram_total_bytes = 48 * 1024 * 1024 * 1024

abbrev pub thermal_event_celsius : ℕ
thermal_event_celsius = 79

-- `base_index + offset`, of 32 bits
abbrev pub index_at : ℕ → ℕ → ℕ
index_at base_index offset = (base_index + offset) % 2 ^ 32

module _ {F : Type 0} (f : F64 F) where
  -- `as u32`
  abbrev pub to_u32 : F → ℕ
  to_u32 x = if leb (2 ^ 32) (f.to_u64 x) then 4294967295 else f.to_u64 x

  -- A decimal, by its digits and their power of ten.
  abbrev pub decimal : ℕ → ℕ → F
  decimal digits power = f.div (f.of_ℕ digits) (f.of_ℕ power)

  -- `a / 10 + b / 10 * util / 100`
  abbrev pub load_share : F → ℕ → ℕ → F
  load_share util a b = f.add (decimal a 10) (f.div (f.mul (decimal b 10) util) (f.of_ℕ 100))

  abbrev pub pcie_peak_bytes_per_sec : F
  pcie_peak_bytes_per_sec =
      f.mul (f.mul (f.mul (f.of_ℕ 12) (f.of_ℕ 1024)) (f.of_ℕ 1024)) (f.of_ℕ 1024)

module _ {F : Type 0} (f : F64 F) (sin : F → F) (tau : F) where
  unfoldable pub utilization : ℕ → ℕ → F
  utilization index timestamp_ms =
      let t = f.div (f.of_ℕ timestamp_ms) (f.of_ℕ 1000) in
      let phase =
        f.add (f.div (f.mul t tau) (f.of_ℕ 300)) (f.mul (f.of_ℕ index) (decimal f 21 10)) in
      f.add (f.of_ℕ 50) (f.mul (f.of_ℕ 45) (sin phase))

  unfoldable pub temperature : ℕ → ℕ → ℕ
  unfolding utilization
  temperature index timestamp_ms =
      to_u32 f
        (f.round (f.add (f.of_ℕ 42) (f.mul (utilization index timestamp_ms) (decimal f 4 10))))

  module _ (decimals : ℕ → String) where
    unfoldable pub simulated_gpu : ℕ → ℕ → GpuMetrics F
    unfolding utilization temperature append
    simulated_gpu index timestamp_ms =
        let util = utilization index timestamp_ms in
        let clock_mhz = to_u32 f (f.round (f.add (f.of_ℕ 1200) (f.mul util (f.of_ℕ 14)))) in
        record {
          index = some index;
          name = some (append "Simulated GPU " (decimals index));
          utilization_percent = some (to_u32 f (f.round util));
          memory_total_bytes = some vram_total_bytes;
          memory_used_bytes =
              some (f.to_u64 (f.mul (f.of_ℕ vram_total_bytes) (load_share f util 3 5)));
          temperature_celsius = some (temperature index timestamp_ms);
          power_watts = some (f.mul (f.of_ℕ 300) (load_share f util 2 7));
          power_limit_watts = some (f.of_ℕ 300);
          clock_graphics_mhz = some clock_mhz;
          clock_sm_mhz = some clock_mhz;
          clock_memory_mhz = some 9001;
          fan_speed_percent = some (to_u32 f (f.round (f.add (f.of_ℕ 30) (f.div util (f.of_ℕ 2)))));
          pcie_rx_bytes_per_sec =
              some (f.to_u64 (f.div (f.mul (pcie_peak_bytes_per_sec f) util) (f.of_ℕ 100)));
          pcie_tx_bytes_per_sec = some (
              f.to_u64 (
                f.div (f.mul (f.mul (pcie_peak_bytes_per_sec f) (decimal f 8 10)) util)
                  (f.of_ℕ 100)));
        }

    unfoldable pub simulated_gpus : ℕ → ℕ → ℕ → List (GpuMetrics F)
    unfolding range simulated_gpu
    simulated_gpus count base_index timestamp_ms =
        map (λ offset. simulated_gpu (index_at base_index offset) timestamp_ms) (range 0 count)

    abbrev pub simulated_event : ℕ → ℕ → List GpuEvent
    simulated_event index timestamp_ms =
        if leb thermal_event_celsius (temperature index timestamp_ms)
        then record {
          timestamp_ms = timestamp_ms;
          gpu_index = some index;
          event_type = "thermal";
          detail = append "Simulated thermal throttling (GPU " (append (decimals index) ")");
        }
          ∷ []
        else []

    -- The events of the fictive GPUs at some offsets.
    unfoldable pub events_at : List ℕ → ℕ → ℕ → List GpuEvent
    unfolding temperature append
    events_at [] base_index timestamp_ms = []
    events_at (offset ∷ offsets) base_index timestamp_ms =
        simulated_event (index_at base_index offset) timestamp_ms
        ++ events_at offsets base_index timestamp_ms

    abbrev pub simulated_gpu_events : ℕ → ℕ → ℕ → List GpuEvent
    simulated_gpu_events count base_index timestamp_ms =
        events_at (range 0 count) base_index timestamp_ms
