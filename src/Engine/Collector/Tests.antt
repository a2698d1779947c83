-- ===== src/Engine/Collector/Tests.antt =====
-- The theorems about the engine map, at concrete engines and detections.
use spark_dashboard.Prelude.{
  ℕ, String, ◌≡◌, refl, Option, none, some, List, [], ◌∷◌, lookup, upsert, map_entries, inl, inr,
  arith,
}
use spark_dashboard.Engine.Types.{Key, key_eq, vllm, docker, native, error}
use spark_dashboard.Engine.Collector.{
  Collector, DetectedEngine, EngineOverride, adopt_container, refresh, clear_stale_pids, detect_one,
  detect_tick, seed,
}
use spark_dashboard.Engine.Collector.Reach.{IsFaithful, IsConsistent, detection}
use spark_dashboard.Engine.Collector.Polling.{container-Tick}
use spark_dashboard.Engine.Sample.{Engine, sample_ops, sample_factory, down, live}

abbrev here : Key
here = (vllm, "http://localhost:8000")

abbrev there : Key
there = (vllm, "http://localhost:9000")

-- The same server in another container, and a second server.
abbrev moved : DetectedEngine
moved = record {
  engine_type = vllm;
  endpoint = "http://localhost:8000";
  deployment_mode = docker;
  served_model = none;
  pids = 8 ∷ 9 ∷ [];
  container_id = some "c2";
  fallback_endpoints = [];
}

abbrev second : DetectedEngine
second = record {
  engine_type = vllm;
  endpoint = "http://localhost:9000";
  deployment_mode = native;
  served_model = none;
  pids = 5 ∷ [];
  container_id = none;
  fallback_endpoints = [];
}

abbrev one_override : List EngineOverride
one_override =
    record { engine_type = vllm; endpoint = "http://localhost:8000"; api_key = none } ∷ []

abbrev no_key : String → Option String
no_key endpoint = none

abbrev with_live : Collector ℕ Engine
with_live = record { engines = (here, live) ∷ []; snapshots = [] }

abbrev with_down : Collector ℕ Engine
with_down = record { engines = (here, down (error "refused")) ∷ []; snapshots = [] }

sample-IsFaithful : IsFaithful sample_ops sample_factory
sample-IsFaithful = record {
  created = λ t endpoint model key. refl;
  keeps = record { health = λ a. refl; model = λ a. refl; metrics = λ a. refl; loaded = λ a. refl };
}

live-IsConsistent : IsConsistent sample_ops with_live.engines
unfolding lookup
live-IsConsistent = record {
  unique = (refl, tt);
  tracked = (
    record {
      valid = record {
        phase = inl (record { status = refl; stopped_at = refl; failures = omega arith });
        fetched = refl;
        attempted = inr (refl, refl);
      };
      keyed = refl;
    },
    tt,
  );
}

abbrev after_start : Collector ℕ Engine
after_start = record { engines = seed sample_factory one_override 1; snapshots = [] }

abbrev after_detection : Collector ℕ Engine
after_detection = record after_start {
  engines = detect_tick sample_factory no_key (moved ∷ second ∷ []) 2 after_start.engines;
}

-- The detection finds the server in another container; it stays with the one that it has.
container-Tick_example : (record live { pids = 8 ∷ 9 ∷ [] }).container_id ≡ some "c1"
unfolding lookup upsert map_entries detect_tick detect_one refresh adopt_container clear_stale_pids
container-Tick_example =
    container-Tick sample_ops sample_factory no_key {c = with_live} here live
      (record live { pids = 8 ∷ 9 ∷ [] }) "c1" (detection (moved ∷ []) 2) (refl, tt) refl refl refl
