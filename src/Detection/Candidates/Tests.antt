-- ===== src/Detection/Candidates/Tests.antt =====
-- The candidates of a host with one native server and one container, and the engines they become.
use spark_dashboard.Prelude.{
  ℕ, String, ◌≡◌, refl, All, Bool, true, ◌||◌, none, List, [], ◌∷◌, ◌==◌, string_eq,
}
use spark_dashboard.Engine.Types.{EngineType, DeploymentMode, vllm, docker, native}
use spark_dashboard.Engine.Collector.{DetectedEngine}
use spark_dashboard.Detection.Candidates.{
  merge_docker_candidates, absorb_all, absorb_container_processes, join_on_endpoint, fold_into,
  add_pids, add_fallbacks, detect_engines,
}
use spark_dashboard.Detection.Candidates.Pids.{names, merge_docker_candidates_pids}
use spark_dashboard.Detection.Candidates.Verified.{
  has_key, DistinctKeys, detect_engines_sound, detect_engines_complete,
}

abbrev candidate : String → DeploymentMode → List ℕ → DetectedEngine
candidate endpoint mode pids = record {
  engine_type = vllm;
  endpoint = endpoint;
  deployment_mode = mode;
  served_model = none;
  pids = pids;
  container_id = none;
  fallback_endpoints = [];
}

-- The host scan saw the container's process 12 as a server of its own.
abbrev host_scan : List DetectedEngine
host_scan =
    candidate "http://localhost:8000" native (10 ∷ 11 ∷ [])
    ∷ candidate "http://127.0.0.1:9000" native (12 ∷ [])
    ∷ []

abbrev containers : List DetectedEngine
containers = candidate "http://localhost:9000" docker (12 ∷ 13 ∷ []) ∷ []

abbrev answers : EngineType → String → Bool
answers engine_type endpoint =
    endpoint == "http://localhost:8000" || endpoint == "http://localhost:9000"

merge_docker_candidates_pids_example :
    names 13 (merge_docker_candidates host_scan containers)
    ≡ (names 13 host_scan || names 13 containers)
merge_docker_candidates_pids_example = merge_docker_candidates_pids 13 host_scan containers

detect_engines_sound_example :
    DistinctKeys (detect_engines answers host_scan containers)
    × All
        (λ c. (answers c.engine_type c.endpoint ≡ true) × (c.fallback_endpoints ≡ []))
        (detect_engines answers host_scan containers)
detect_engines_sound_example = detect_engines_sound answers host_scan containers

detect_engines_complete_example :
    has_key (vllm, "http://localhost:9000") (detect_engines answers host_scan containers) ≡ true
unfolding merge_docker_candidates absorb_all absorb_container_processes join_on_endpoint fold_into
    add_pids add_fallbacks
detect_engines_complete_example =
    detect_engines_complete answers host_scan containers 1
      (candidate "http://localhost:9000" docker (12 ∷ 13 ∷ [])) "http://localhost:9000" refl refl
