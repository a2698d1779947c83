-- ===== src/Engine/Collector.antt =====
-- engines/mod.rs: the engine map, and `engine_collector_loop` with its two timers.
pub mod Reach
pub mod Detection
pub mod Polling
mod Tests
use mathlib.Core.List.{foldl}
use spark_dashboard.Prelude.{
  ℕ, String, Bool, true, false, ◌&&◌, not, Option, none, some, List, [], ◌∷◌, any, ◌==◌, Assoc,
  insert, upsert, map_entries, filter_map_entries, map, if◌then◌else◌,
}
use spark_dashboard.Engine.Types.{EngineType, DeploymentMode, docker, native, Key, key_eq}
use spark_dashboard.Engine.State.{
  EngineAdapter, EngineState, EngineSnapshot, Readings, new, poll, should_remove,
}

-- detector.rs: an engine that the detection found.
pub record DetectedEngine : Type 0 where
  pub engine_type : EngineType
  pub endpoint : String
  pub deployment_mode : DeploymentMode
  pub served_model : Option String
  pub pids : List ℕ
  pub container_id : Option String
  pub fallback_endpoints : List String

pub record EngineOverride : Type 0 where
  pub engine_type : EngineType
  pub endpoint : String
  pub api_key : Option String

abbrev pub detected_key : DetectedEngine → Key
detected_key d = (d.engine_type, d.endpoint)

-- `create_adapter`, for one client: the adapter of a type at an endpoint, with a model name of the
-- command line and an API key.
abbrev pub Factory : Type 0 → Type 0
Factory A = EngineType → String → Option String → Option String → A

abbrev pub EngineMap : Type 0 → Type 0
EngineMap A = Assoc Key (EngineState A)

-- The engine map, and the snapshots that the other tasks read.
pub record Collector (F A : Type 0) : Type 0 where
  pub engines : EngineMap A
  pub snapshots : List (EngineSnapshot F)

module _ {A : Type 0} where
  -- `adopt_container`: the new state, and whether it changed.
  pub adopt_container : EngineState A → Option String → EngineState A × Bool
  adopt_container s found = elim s.container_id [
    | some id ↦ (s, false)
    | none ↦ elim found [
      | none ↦ (s, false)
      | some id ↦ (record s { container_id = some id; deployment_mode = docker }, true)
    ]
  ]

  -- What every detection does to the state of its engine, new or not.
  pub refresh : DetectedEngine → EngineState A → EngineState A
  unfolding adopt_container
  refresh d s = (adopt_container (record s { pids = d.pids }) d.container_id).0

  pub clear_stale_pids : EngineMap A → List Key → EngineMap A
  clear_stale_pids engines detected =
      map_entries (λ k s. if any (λ j. j == k) detected then s else record s { pids = [] }) engines

module _ {A : Type 0} (create_adapter : Factory A) where
  seed_one : ℕ → EngineMap A → EngineOverride → EngineMap A
  seed_one now engines ov =
      insert (ov.engine_type, ov.endpoint)
        (new (create_adapter ov.engine_type ov.endpoint none ov.api_key) native now) engines

  -- The seeding of the manual overrides, before the loop.
  pub seed : List EngineOverride → ℕ → EngineMap A
  unfolding seed_one
  seed overrides now = foldl (seed_one now) [] overrides

  module _ (resolve_key : String → Option String) where
    -- The state of an engine that is detected for the first time.
    abbrev pub first_seen : ℕ → DetectedEngine → EngineState A
    first_seen now d =
        record (new
          (create_adapter d.engine_type d.endpoint d.served_model (resolve_key d.endpoint))
          d.deployment_mode now) { container_id = d.container_id }

    pub detect_one : ℕ → EngineMap A → DetectedEngine → EngineMap A
    unfolding refresh
    detect_one now engines d = upsert (detected_key d) (first_seen now d) (refresh d) engines

    -- The branch of the detection timer.
    pub detect_tick : List DetectedEngine → ℕ → EngineMap A → EngineMap A
    unfolding detect_one clear_stale_pids
    detect_tick detected now engines =
        clear_stale_pids (foldl (detect_one now) engines detected) (map detected_key detected)

module _ {F A : Type 0} (ops : EngineAdapter F A) where
  -- Every engine of the map is polled once, in the order of the map's keys. The requests of each
  -- poll take time, so each has its own clock readings.
  pub poll_all : (Key → Readings) → EngineMap A → List (EngineSnapshot F) × EngineMap A
  poll_all clock [] = ([], [])
  poll_all clock ((k, s) ∷ engines) =
      let (snap, s') = poll ops s (clock k) in
      let (snaps, engines') = poll_all clock engines in (snap ∷ snaps, (k, s') ∷ engines')

  pub retain : ℕ → EngineMap A → EngineMap A
  retain now = filter_map_entries (λ k s. if should_remove s now then none else some s)

  -- The branch of the poll timer.
  pub poll_tick : (Key → Readings) → ℕ → Collector F A → Collector F A
  unfolding poll_all retain
  poll_tick clock now c =
      let (snapshots, engines) = poll_all clock c.engines in
      record { engines = retain now engines; snapshots = snapshots }
