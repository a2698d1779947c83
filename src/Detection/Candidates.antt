-- ===== src/Detection/Candidates.antt =====
-- engines/detector.rs: the candidates of the host scan and of the Docker scan, put together and
-- verified.
pub mod Pids
pub mod Verified
mod Tests
use mathlib.Core.List.{foldl}
use spark_dashboard.Prelude.{
  ℕ, String, Bool, true, false, ◌&&◌, ◌||◌, not, Option, none, some, List, [], ◌∷◌, ◌++◌, any,
  filterb, find, is_some, is_empty, ◌==◌, nat_eq, string_eq, leb, if◌then◌else◌,
}
use spark_dashboard.Detection.PidLists.{has, has_text, sort}
use spark_dashboard.Engine.Types.{EngineType, DeploymentMode, docker, native, type_eq, Key, key_eq}
use spark_dashboard.Engine.Collector.{DetectedEngine, detected_key}

abbrev pub is_docker : DeploymentMode → Bool
is_docker docker = true
is_docker native = false

-- The loop over the candidate's PIDs.
pub add_pids : List ℕ → List ℕ → List ℕ
add_pids known [] = known
add_pids known (pid ∷ pids) = add_pids (if has pid known then known else known ++ pid ∷ []) pids

-- The loop over the candidate's fallback endpoints, for an engine at `endpoint`.
pub add_fallbacks : String → List String → List String → List String
add_fallbacks endpoint known [] = known
add_fallbacks endpoint known (other ∷ others) =
    add_fallbacks endpoint
      (if not (other == endpoint) && not (has_text other known) then known ++ other ∷ [] else known)
      others

-- What `join_on_endpoint` makes of the candidate that is there already.
pub fold_into : DetectedEngine → DetectedEngine → DetectedEngine
unfolding sort add_pids add_fallbacks
fold_into existing candidate =
    let container_names_model =
      is_docker candidate.deployment_mode && is_some candidate.served_model in
    record existing {
      served_model =
          if container_names_model || not (is_some existing.served_model)
          then candidate.served_model
          else existing.served_model;
      deployment_mode =
          if is_docker candidate.deployment_mode then docker else existing.deployment_mode;
      pids = sort (add_pids existing.pids candidate.pids);
      container_id =
          if is_some existing.container_id then existing.container_id else candidate.container_id;
      fallback_endpoints =
          add_fallbacks existing.endpoint existing.fallback_endpoints candidate.fallback_endpoints;
    }

pub join_on_endpoint : List DetectedEngine → DetectedEngine → List DetectedEngine
unfolding fold_into
join_on_endpoint [] candidate = candidate ∷ []
join_on_endpoint (c ∷ candidates) candidate =
    let rest = join_on_endpoint candidates candidate in
    if detected_key c == detected_key candidate
    then fold_into c candidate ∷ candidates
    else c ∷ rest

-- The model that an absorbed candidate leaves to the container.
abbrev pub take_model : DetectedEngine → DetectedEngine → DetectedEngine
take_model container c =
    if not (is_some container.served_model) && c.engine_type == container.engine_type
    then record container { served_model = c.served_model }
    else container

-- `c.pids.retain(..)`
abbrev pub without_pids : List ℕ → List ℕ → List ℕ
without_pids taken pids = filterb (λ pid. not (has pid taken)) pids

-- `retain_mut`, from the front: the candidates that stay, and the container.
pub absorb_container_processes :
    List DetectedEngine → DetectedEngine → List DetectedEngine × DetectedEngine
absorb_container_processes [] container = ([], container)
absorb_container_processes (c ∷ candidates) container =
    let own = without_pids container.pids c.pids in
    let shares = any (λ pid. has pid container.pids) c.pids in
    let absorbed = shares && is_empty own in
    let rest =
      absorb_container_processes candidates
        (if absorbed then take_model container c else container) in
    (if absorbed then rest.0 else (if shares then record c { pids = own } else c) ∷ rest.0, rest.1)

-- The first loop: every container, as it is after it has claimed its processes.
pub absorb_all :
    List DetectedEngine → List DetectedEngine → List DetectedEngine × List DetectedEngine
absorb_all candidates [] = (candidates, [])
absorb_all candidates (container ∷ containers) =
    let claimed = absorb_container_processes candidates container in
    let rest = absorb_all claimed.0 containers in (rest.0, claimed.1 ∷ rest.1)

abbrev pub join_all : List DetectedEngine → List DetectedEngine → List DetectedEngine
join_all candidates [] = candidates
join_all candidates (d ∷ ds) = join_all (join_on_endpoint candidates d) ds

pub merge_docker_candidates : List DetectedEngine → List DetectedEngine → List DetectedEngine
merge_docker_candidates candidates containers =
    let claimed = absorb_all candidates containers in join_all claimed.0 claimed.1

-- The verification asks `probe_engine`, which stands here as a test of an engine type and an
-- endpoint; it is in Probe.
module _ (probe : EngineType → String → Bool) where
  -- The first of a candidate's endpoints that answers.
  abbrev pub answering : DetectedEngine → Option String
  answering c = find (probe c.engine_type) (c.endpoint ∷ c.fallback_endpoints)

  pub verify_one : List DetectedEngine → DetectedEngine → List DetectedEngine
  verify_one verified c = elim (answering c) [
    | none ↦ verified
    | some endpoint ↦
        join_on_endpoint verified (record c { endpoint = endpoint; fallback_endpoints = [] })
  ]

  abbrev pub verify_from : List DetectedEngine → List DetectedEngine → List DetectedEngine
  verify_from verified [] = verified
  verify_from verified (c ∷ candidates) = verify_from (verify_one verified c) candidates

  pub verify_candidates : List DetectedEngine → List DetectedEngine
  verify_candidates = verify_from []

  -- `detect_engines`, of the candidates of the two scans
  pub detect_engines : List DetectedEngine → List DetectedEngine → List DetectedEngine
  unfolding merge_docker_candidates verify_candidates
  detect_engines processes containers =
      verify_candidates (merge_docker_candidates processes containers)
