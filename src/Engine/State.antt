-- ===== src/Engine/State.antt =====
-- engines/mod.rs: `EngineState`, one engine between two poll ticks, and its snapshot.
-- Times are nanoseconds of the monotonic clock, and each reading of the clock is an argument.
pub mod Phase
pub mod Models
pub mod Snapshots
pub mod Identity
mod Tests
use spark_dashboard.Prelude.{
  ℕ, ◌+◌, ◌-◌, ◌*◌, ◌%◌, ◌^◌, String, Bool, true, false, ◌&&◌, not, Option, none, some, List, [],
  leb, ltb, is_some, keep_if, if◌then◌else◌,
}
use mathlib.Core.Option
use spark_dashboard.Engine.Types.{
  EngineType, DeploymentMode, native, EngineStatus, running, stopped, ModelMetadataError,
  MetricsError, is_running, is_stopped, is_up, ModelInfo, ModelResolution, LoadedModel,
}
use spark_dashboard.Engine.Metrics.{GroupSet, is_empty, EngineMetrics, RecentRequest, reported_only}

-- What the trait `EngineAdapter` asks of an adapter whose state is `A`. The state holds what the
-- engine is going to answer, so that a request is a function of it.
pub record EngineAdapter (F A : Type 0) : Type 0 where
  pub engine_type : A → EngineType
  pub endpoint : A → String
  pub metric_groups : A → GroupSet
  pub metrics_launch_flag : A → Option String
  pub metrics_off : A → Bool
  pub metrics_error : A → Option MetricsError
  pub loaded_models : A → Option (List LoadedModel)
  pub refresh_loaded_models : A → A
  pub health_check : A → EngineStatus × A
  pub get_model_info : A → ModelResolution × A
  pub get_metrics : A → Option (EngineMetrics F) × A

abbrev pub secs : ℕ → ℕ
secs n = n * 1000000000

abbrev pub model_refresh_interval : ℕ
model_refresh_interval = secs 600

abbrev pub model_unresolved_retry : ℕ
model_unresolved_retry = secs 30

-- `Instant::elapsed`, which is zero for an instant in the future
abbrev pub elapsed : ℕ → ℕ → ℕ
elapsed now since = now - since

pub record EngineState (A : Type 0) : Type 0 where
  pub adapter : A
  pub consecutive_failures : ℕ
  pub last_seen : ℕ
  pub status : EngineStatus
  pub stopped_at : Option ℕ
  pub deployment_mode : DeploymentMode
  pub cached_model : Option ModelInfo
  pub model_metadata_error : Option ModelMetadataError
  pub model_fetched_at : Option ℕ
  pub model_attempted_at : Option ℕ
  pub pids : List ℕ
  pub container_id : Option String

pub record EngineSnapshot (F : Type 0) : Type 0 where
  pub engine_type : EngineType
  pub endpoint : String
  pub status : EngineStatus
  pub model : Option ModelInfo
  pub model_metadata_error : Option ModelMetadataError
  pub loaded_models : Option (List LoadedModel)
  pub metric_groups : GroupSet
  pub metrics_off : Option String
  pub metrics_error : Option MetricsError
  pub metrics : Option (EngineMetrics F)
  pub recent_requests : List (RecentRequest F)
  pub deployment_mode : DeploymentMode
  pub gpu_indexes : List ℕ
  pub pids : List ℕ
  pub container_id : Option String

-- The clock readings of one poll: when the probe was recorded, when the age of the model was
-- looked at, and when a fetched model was cached.
pub record Readings : Type 0 where
  pub probed_at : ℕ
  pub checked_at : ℕ
  pub cached_at : ℕ

-- `attempted.is_none_or(|t| t.elapsed() >= cooldown)`, written out as a match in the source
abbrev pub is_due : ℕ → ℕ → Option ℕ → Bool
is_due now interval none = true
is_due now interval (some t) = leb interval (elapsed now t)

cached_due : ℕ → Option ModelInfo → Option ℕ → Option ℕ → Bool
cached_due now (some model) fetched attempted = is_due now model_refresh_interval fetched
cached_due now none fetched attempted = is_due now model_unresolved_retry attempted

module _ {A : Type 0} where
  -- `EngineState::new`
  pub new : A → DeploymentMode → ℕ → EngineState A
  new adapter mode now = record {
    adapter = adapter;
    consecutive_failures = 0;
    last_seen = now;
    status = running;
    stopped_at = none;
    deployment_mode = mode;
    cached_model = none;
    model_metadata_error = none;
    model_fetched_at = none;
    model_attempted_at = none;
    pids = [];
    container_id = none;
  }

  pub should_fetch_model : EngineState A → ℕ → Bool
  unfolding cached_due
  should_fetch_model s now =
      if is_some s.model_metadata_error
      then is_due now model_unresolved_retry s.model_attempted_at
      else cached_due now s.cached_model s.model_fetched_at s.model_attempted_at

  pub cache_model : EngineState A → ModelResolution → ℕ → EngineState A
  cache_model s resolution now =
      let attempted = record s {
        model_attempted_at = some now;
        model_metadata_error = resolution.metadata_error;
      } in
      if is_some resolution.model
      then record attempted { cached_model = resolution.model; model_fetched_at = some now }
      else attempted

  pub invalidate_model_cache : EngineState A → EngineState A
  invalidate_model_cache s = record s {
    cached_model = none;
    model_metadata_error = none;
    model_fetched_at = none;
    model_attempted_at = none;
  }

  -- The failure counter is a `u32`.
  unfoldable pub record_probe_result : EngineState A → Bool → ℕ → EngineState A
  unfolding invalidate_model_cache
  record_probe_result s true now = record s {
    consecutive_failures = 0;
    last_seen = now;
    status = running;
    stopped_at = none;
  }
  record_probe_result s false now =
      let failed = record s { consecutive_failures = (s.consecutive_failures + 1) % 2 ^ 32 } in
      let entered =
        if is_some failed.stopped_at
        then failed
        else invalidate_model_cache (record failed { stopped_at = some now }) in
      if leb 3 failed.consecutive_failures then record entered { status = stopped } else failed

  unfoldable pub should_remove : EngineState A → ℕ → Bool
  should_remove s now = elim s.stopped_at [
    | none ↦ false
    | some t ↦ is_stopped s.status && ltb (secs 30) (elapsed now t)
  ]

module _ {F A : Type 0} (ops : EngineAdapter F A) where
  pub snapshot :
      EngineState A → EngineStatus → Option ModelInfo → Option (EngineMetrics F) → EngineSnapshot F
  snapshot s status model metrics =
      let groups = ops.metric_groups s.adapter in
      record {
        engine_type = ops.engine_type s.adapter;
        endpoint = ops.endpoint s.adapter;
        status = status;
        model = model;
        model_metadata_error = s.model_metadata_error;
        loaded_models = ops.loaded_models s.adapter;
        metric_groups = groups;
        metrics_off =
            if is_running status && ops.metrics_off s.adapter
            then ops.metrics_launch_flag s.adapter
            else none;
        metrics_error = if is_running status then ops.metrics_error s.adapter else none;
        metrics =
            Option.map (λ m. reported_only m groups) (keep_if (not (is_empty groups)) metrics);
        recent_requests = [];
        deployment_mode = s.deployment_mode;
        gpu_indexes = [];
        pids = s.pids;
        container_id = s.container_id;
      }

  -- The parts of `EngineState::poll`, in the order of the code: the probe, the model, the metrics.
  abbrev pub ask_model : EngineState A → ℕ → EngineState A
  ask_model s now =
      let (fetched, adapter) = ops.get_model_info s.adapter in
      cache_model (record s { adapter = adapter }) fetched now

  abbrev pub refresh_model : EngineState A → EngineStatus → Readings → EngineState A
  refresh_model s status clock =
      if is_running status && should_fetch_model s clock.checked_at
      then ask_model s clock.cached_at
      else s

  abbrev pub ask_metrics : Bool → A → Option (EngineMetrics F) × A
  ask_metrics true a =
      let (metrics, a') = ops.get_metrics a in (metrics, ops.refresh_loaded_models a')
  ask_metrics false a = (none, a)

  unfoldable pub poll : EngineState A → Readings → EngineSnapshot F × EngineState A
  poll s clock =
      let (health, adapter) = ops.health_check s.adapter in
      let success = is_up health in
      let probed = record_probe_result (record s { adapter = adapter }) success clock.probed_at in
      let status = if success then health else probed.status in
      let asked = refresh_model probed status clock in
      let (metrics, adapter') = ask_metrics success asked.adapter in
      let polled = record asked { adapter = adapter' } in
      (snapshot polled status asked.cached_model metrics, polled)
