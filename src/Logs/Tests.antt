-- ===== src/Logs/Tests.antt =====
-- Frames of ASCII text, and the snapshots of two engines.
use spark_dashboard.Prelude.{
  ℕ, String, ◌≡◌, refl, true, false, Option, none, List, [], ◌∷◌, ◌++◌, string_eq,
}
use spark_dashboard.Engine.Types.{vllm, docker, running}
use spark_dashboard.Engine.State.{EngineSnapshot}
use spark_dashboard.Engine.Sample.{only_throughput}
use spark_dashboard.Logs.{Text, buffer_lines}
use spark_dashboard.Logs.Registry.{
  Registry, empty_registry, subscribe_container, Reach, start, next, subscribes, stops,
  IsRegistered, Reach-IsRegistered,
}
use spark_dashboard.Logs.Lines.{append-buffer_lines}

abbrev ascii : List ℕ → Text
ascii bytes = bytes

abbrev tag : Text
tag = b'e' ∷ b' ' ∷ []

append-buffer_lines_example :
    let first = buffer_lines ascii [] (b'a' ∷ []) none in
    let second = buffer_lines ascii first.1 (b'b' ∷ 10 ∷ []) none in
    buffer_lines ascii [] (b'a' ∷ b'b' ∷ 10 ∷ []) none ≡ (first.0 ++ second.0, second.1)
append-buffer_lines_example = append-buffer_lines ascii [] (b'a' ∷ []) (b'b' ∷ 10 ∷ []) none refl

abbrev seen : String → Option String → EngineSnapshot ℕ
seen endpoint container = record {
  engine_type = vllm;
  endpoint = endpoint;
  status = running;
  model = none;
  model_metadata_error = none;
  loaded_models = none;
  metric_groups = only_throughput;
  metrics_off = none;
  metrics_error = none;
  metrics = none;
  recent_requests = [];
  deployment_mode = docker;
  gpu_indexes = [];
  pids = [];
  container_id = container;
}

abbrev attached : Registry
attached = (subscribe_container "c1" empty_registry).1

-- The task of the stream has found no subscriber left.
abbrev abandoned : Registry
abandoned = record attached {
  tasks = record { container = "c1"; channel = 0; stopping = true } ∷ [];
}

abandoned_reached : Reach abandoned
unfolding subscribe_container
abandoned_reached =
    next (next start (subscribes "c1" empty_registry))
      (stops attached [] [] (record { container = "c1"; channel = 0; stopping = false }) refl)

Reach-IsRegistered_example : IsRegistered abandoned
Reach-IsRegistered_example = Reach-IsRegistered abandoned_reached

-- A client that comes before the entry is removed listens to the channel that has ended.
late_client : (subscribe_container "c1" abandoned).0 ≡ 0
unfolding subscribe_container
late_client = refl
