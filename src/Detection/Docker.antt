-- ===== src/Detection/Docker.antt =====
-- engines/detector.rs: the candidates of the containers that Docker runs.
pub mod Confirmed
use spark_dashboard.Prelude.{
  ℕ, ◌^◌, String, Bool, true, false, not, ◌&&◌, ◌||◌, Option, none, some, List, [], ◌∷◌, map, any,
  cons_some, bind_some, or_default, or_else, is_empty, ◌==◌, nat_eq, if◌then◌else◌,
}
use spark_dashboard.Text.{IpAddr, port_text, split_whitespace, is_empty_text}
use spark_dashboard.Engine.Types.{
  EngineType, DeploymentMode, docker, native, vllm, sglang, ollama, llama_cpp,
}
use spark_dashboard.Engine.Collector.{DetectedEngine}
use spark_dashboard.Ollama.Host.{from_env}
use spark_dashboard.Detection.PidLists.{sort}
use spark_dashboard.Detection.Commands.{runs_engine}
use spark_dashboard.Detection.Containers.{ContainerClass, classify_container}
use spark_dashboard.Detection.Launch.{llamacpp_launch, served_model, listen}
use spark_dashboard.Detection.Endpoints.{
  PublishedPort, docker_endpoint, ollama_container_endpoint, llamacpp_container_endpoints,
  llamacpp_container_command,
}
use spark_dashboard.Detection.Arguments.{
  parse_model_for, parse_port_from_command_str, env_var_in, top_row_command, parse_pid_from_top_row,
}
use spark_dashboard.Detection.Processes.{Site, site_at, default_port, default_ports}

-- A container as Docker lists it. Protocols other than UDP and SCTP count as TCP.
pub record Container : Type 0 where
  pub id : Option String
  pub image : Option String
  pub command : Option String
  pub names : List String
  pub ports : List PublishedPort
  pub network_mode : Option String

-- What the code asks of Docker: the rows of `docker top` and the environment of a container, none
-- where that fails.
pub record DockerApi : Type 0 where
  pub top_processes : String → Option (List (List String))
  pub container_env : String → Option (List String)

-- `dedup`
abbrev pub dedup : List ℕ → List ℕ
dedup [] = []
dedup (x ∷ []) = x ∷ []
dedup (x ∷ y ∷ ys) = let rest = dedup (y ∷ ys) in if x == y then rest else x ∷ rest

abbrev pub pids_of : List (List String) → List ℕ
pids_of [] = []
pids_of (row ∷ rows) = cons_some (parse_pid_from_top_row row) (pids_of rows)

abbrev pub first_some : (String → Option String) → List String → Option String
first_some f [] = none
first_some f (text ∷ texts) = or_else (f text) (first_some f texts)

abbrev pub first_public_port : List PublishedPort → Option ℕ
first_public_port [] = none
first_public_port (p ∷ published) = or_else p.host (first_public_port published)

abbrev pub text_of_port : Option ℕ → Option String
text_of_port none = none
text_of_port (some port) = some (port_text port)

module _ (to_lowercase : String → String) (parse_ip : String → Option IpAddr)
    (api : DockerApi) where
  abbrev pub container_id : Container → String
  container_id c = or_default "" c.id

  -- The rows of the container's processes.
  unfoldable pub rows_of : Container → List (List String)
  rows_of c =
      if is_empty_text (container_id c)
      then []
      else or_default [] (api.top_processes (container_id c))

  abbrev pub commands_of : Container → List String
  commands_of c = map top_row_command (rows_of c)

  unfoldable pub env_of : Container → List String
  env_of c =
      if is_empty_text (container_id c)
      then []
      else or_default [] (api.container_env (container_id c))

  unfoldable pub class_of : Container → Option ContainerClass
  class_of c =
      classify_container to_lowercase c.names (to_lowercase (or_default "" c.image))
        (to_lowercase (or_default "" c.command))

  -- A container that only matched by name has to prove itself.
  unfoldable pub is_confirmed : Container → ContainerClass → Bool
  is_confirmed c class =
      class.strong_signal || any (λ command. runs_engine command class.engine_type) (commands_of c)

  unfoldable pub vllm_or_sglang_site : Container → EngineType → Site
  vllm_or_sglang_site c engine_type =
      let command = or_default "" c.command in
      let port = or_else (text_of_port (first_public_port c.ports)) (
        or_else (parse_port_from_command_str command)
          (first_some parse_port_from_command_str (commands_of c))) in
      record {
        endpoint = (docker_endpoint port (default_port engine_type)).0;
        fallback_endpoints = [];
        served_model =
            or_else (parse_model_for engine_type command)
              (first_some (parse_model_for engine_type) (commands_of c));
      }

  unfoldable pub container_site : Container → EngineType → Option Site
  container_site c ollama =
      bind_some
        (ollama_container_endpoint parse_ip
          (from_env parse_ip (env_var_in (env_of c) "OLLAMA_HOST")) c.network_mode c.ports)
        (λ endpoint.
          some (record { endpoint = endpoint; fallback_endpoints = []; served_model = none }))
  container_site c llama_cpp =
      let command = llamacpp_container_command (or_default "" c.command) (commands_of c) in
      let launch = llamacpp_launch (split_whitespace command) (env_var_in (env_of c)) in
      bind_some (listen launch (default_ports docker)) (λ l.
        site_at (llamacpp_container_endpoints parse_ip l c.network_mode c.ports)
          (served_model launch))
  container_site c vllm = some (vllm_or_sglang_site c vllm)
  container_site c sglang = some (vllm_or_sglang_site c sglang)

  abbrev pub container_engine : Container → EngineType → Site → DetectedEngine
  container_engine c engine_type site = record {
    engine_type = engine_type;
    endpoint = site.endpoint;
    deployment_mode = docker;
    served_model = site.served_model;
    pids = dedup (sort (pids_of (rows_of c)));
    container_id = c.id;
    fallback_endpoints = site.fallback_endpoints;
  }

  -- The body of the loop over the containers.
  unfoldable pub detect_container : Container → Option DetectedEngine
  detect_container c = bind_some (class_of c) (λ class.
      if is_confirmed c class
      then bind_some (container_site c class.engine_type)
          (λ site. some (container_engine c class.engine_type site))
      else none)

  -- `detect_docker_engines`, on the containers that Docker lists
  abbrev pub detect_docker_engines : List Container → List DetectedEngine
  detect_docker_engines [] = []
  detect_docker_engines (c ∷ containers) =
      cons_some (detect_container c) (detect_docker_engines containers)
