-- ===== src/Detection/Docker/Confirmed.antt =====
-- engines/detector.rs: the evidence for a container's engine, and its processes.
use spark_dashboard.Prelude.{
  ◌⊎◌, or_default, ℕ, String, ◌≡◌, inl, inr, refl, subst, true, not, ◌||◌, Option, some, List, [],
  ◌∷◌, any, All, arith, Bool-cases, Option-cases,
}
use spark_dashboard.Text.{IpAddr}
use spark_dashboard.Engine.Collector.{DetectedEngine}
use spark_dashboard.Detection.PidLists.{has}
use spark_dashboard.Detection.Candidates.{is_docker, merge_docker_candidates}
use spark_dashboard.Detection.Candidates.Pids.{names, merge_docker_candidates_claims}
use spark_dashboard.Detection.Commands.{runs_engine}
use spark_dashboard.Engine.Types.{EngineType}
use spark_dashboard.Detection.Containers.{ContainerClass, named}
use spark_dashboard.Detection.Containers.Signals.{
  names_of, IsSaid, classify_container-says, classify_container-weak,
}
use spark_dashboard.Detection.Docker.{
  Container, DockerApi, class_of, commands_of, is_confirmed, container_site, container_engine,
  detect_container, detect_docker_engines,
}

module _ (to_lowercase : String → String) (parse_ip : String → Option IpAddr)
    (api : DockerApi) where
  -- Some process of the container runs the engine, and a name of the container has one of the engine's.
  abbrev pub IsRun : EngineType → Container → Type 0
  IsRun engine_type c =
      (any (named to_lowercase c.names) (names_of engine_type) ≡ true)
      × (any (λ command. runs_engine command engine_type) (commands_of to_lowercase parse_ip api c)
          ≡ true)

  -- What makes an engine of a container credible.
  abbrev pub IsCredible : EngineType → Container → Type 0
  IsCredible engine_type c =
      IsSaid engine_type (to_lowercase (or_default "" c.image))
        (to_lowercase (or_default "" c.command))
      ⊎ IsRun engine_type c

  is_confirmed-IsCredible :
      (c : Container) (class : ContainerClass)
      → class_of to_lowercase parse_ip api c ≡ some class
      → is_confirmed to_lowercase parse_ip api c class ≡ true
      → IsCredible class.engine_type c
  unfolding class_of is_confirmed
  is_confirmed-IsCredible c class classified proven = elim (Bool-cases class.strong_signal) [
    | inl strong ↦ inl (classify_container-says to_lowercase c.names _ _ class classified strong)
    | inr weak ↦
        let (_, called) = classify_container-weak to_lowercase c.names _ _ class classified weak in
        inr (called, ground (arith, weak))
  ]

  -- The engine of a container has the container's id and is deployed in Docker, and the image names
  -- that engine, or the command launches or mentions it, or else a name of the container has one of the
  -- engine's and some process of the container runs it.
  pub detect_container-Confirmed :
      (c : Container) (d : DetectedEngine)
      → detect_container to_lowercase parse_ip api c ≡ some d
      → (d.container_id ≡ c.id) × (is_docker d.deployment_mode ≡ true) × IsCredible d.engine_type c
  unfolding detect_container
  detect_container-Confirmed c d h = elim (Option-cases (class_of to_lowercase parse_ip api c)) [
    | inl no_class ↦ ground (arith, no_class)
    | inr (class, classified) ↦ elim (Bool-cases (is_confirmed to_lowercase parse_ip api c class)) [
      | inr unproven ↦ ground (arith, classified, unproven)
      | inl proven ↦
          elim (Option-cases (container_site to_lowercase parse_ip api c class.engine_type)) [
            | inl nowhere ↦ ground (arith, classified, proven, nowhere)
            | inr (site, at) ↦
                let found = container_engine to_lowercase parse_ip api c class.engine_type site in
                let same : found ≡ d = ground (arith, classified, proven, at) in
                subst
                  (λ d.
                    (d.container_id ≡ c.id)
                    × (is_docker d.deployment_mode ≡ true)
                    × IsCredible d.engine_type c)
                  same (refl, refl, is_confirmed-IsCredible c class classified proven)
          ]
    ]
  ]

  detect_docker_engines-IsContainer :
      (containers : List Container)
      → All
          (λ d. is_docker d.deployment_mode ≡ true)
          (detect_docker_engines to_lowercase parse_ip api containers)
  detect_docker_engines-IsContainer [] = tt
  detect_docker_engines-IsContainer (c ∷ containers) =
      elim (Option-cases (detect_container to_lowercase parse_ip api c)) [
        | inl nothing ↦ rw nothing (detect_docker_engines-IsContainer containers)
        | inr (d, found) ↦
            rw found (
              (detect_container-Confirmed c d found).1,
              detect_docker_engines-IsContainer containers,
            )
      ]

  -- One engine in one container is not two: whatever the host scan made of a process that Docker lists
  -- for an engine's container, after the merge every candidate with that process is deployed in Docker.
  pub container_processes_claimed :
      (p : ℕ) (processes : List DetectedEngine) (containers : List Container)
      → names p (detect_docker_engines to_lowercase parse_ip api containers) ≡ true
      → All
          (λ c. (is_docker c.deployment_mode || not (has p c.pids)) ≡ true)
          (merge_docker_candidates processes
            (detect_docker_engines to_lowercase parse_ip api containers))
  container_processes_claimed p processes containers in_container =
      merge_docker_candidates_claims p processes
        (detect_docker_engines to_lowercase parse_ip api containers)
        (detect_docker_engines-IsContainer containers) in_container
