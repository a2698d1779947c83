-- ===== src/Detection/Processes.antt =====
-- engines/detector.rs: the candidates of the host's process table.
pub mod Engines
pub mod Grouping
use spark_dashboard.Prelude.{
  ℕ, String, Bool, true, false, ◌&&◌, not, Option, none, some, List, [], ◌∷◌, ◌++◌, map, filterb,
  cons_some, bind_some, or_default, ◌==◌, nat_eq, if◌then◌else◌,
}
use spark_dashboard.Text.{IpAddr, append, port_text}
use spark_dashboard.Engine.Types.{
  EngineType, DeploymentMode, docker, native, vllm, sglang, ollama, llama_cpp, Key, key_eq,
}
use spark_dashboard.Engine.Collector.{DetectedEngine, detected_key}
use spark_dashboard.Ollama.Host.{from_env, endpoint}
use spark_dashboard.Detection.PidLists.{has}
use spark_dashboard.Detection.PidTree.{Tree, expand_pid_tree}
use spark_dashboard.Detection.Commands.{OsArg, texts, engine_of_process}
use spark_dashboard.Detection.Launch.{LlamaCppListen, llamacpp_launch, served_model, listen}
use spark_dashboard.Detection.Endpoints.{endpoints}
use spark_dashboard.Detection.Arguments.{
  parse_endpoint_from_args, parse_model_from_args, parse_sglang_model_parts,
}

pub record HostProcess : Type 0 where
  pub pid : ℕ
  pub parent : Option ℕ
  pub cmd : List OsArg

-- `llamacpp::default_ports`
abbrev pub default_ports : DeploymentMode → ℕ × ℕ
default_ports native = (9931, 8080)
default_ports docker = (8080, 9931)

abbrev pub default_port : EngineType → ℕ
default_port vllm = 8000
default_port sglang = 30000
default_port ollama = 11434
default_port llama_cpp = (default_ports native).0

abbrev pub owns_its_descendants : Option EngineType → Bool
owns_its_descendants (some ollama) = true
owns_its_descendants (some llama_cpp) = true
owns_its_descendants (some vllm) = false
owns_its_descendants (some sglang) = false
owns_its_descendants none = false

abbrev pub tree_of : List HostProcess → Tree
tree_of processes = map (λ r. (r.pid, r.parent)) processes

abbrev pub has_parent : List ℕ → Option ℕ → Bool
has_parent owners none = false
has_parent owners (some parent) = has parent owners

-- The servers that own their descendants, and the PIDs of those descendants.
abbrev pub owners : List HostProcess → List ℕ
owners processes =
    map (λ r. r.pid) (filterb (λ r. owns_its_descendants (engine_of_process r.cmd)) processes)

abbrev pub owners_children : List HostProcess → List ℕ
owners_children processes =
    map (λ r. r.pid) (filterb (λ r. has_parent (owners processes) r.parent) processes)

pub owned : List HostProcess → List ℕ
owned processes = expand_pid_tree (owners_children processes) (tree_of processes)

-- Where a server listens: its endpoint, the endpoints to fall back on, and its model.
pub record Site : Type 0 where
  pub endpoint : String
  pub fallback_endpoints : List String
  pub served_model : Option String

abbrev pub site_at : List String → Option String → Option Site
site_at [] served = none
site_at (first ∷ fallbacks) served =
    some (record { endpoint = first; fallback_endpoints = fallbacks; served_model = served })

abbrev pub default_endpoint : EngineType → String
default_endpoint engine_type = append "http://localhost:" (port_text (default_port engine_type))

abbrev pub found_of : HostProcess → EngineType → Site → DetectedEngine
found_of r engine_type site = record {
  engine_type = engine_type;
  endpoint = site.endpoint;
  deployment_mode = native;
  served_model = site.served_model;
  pids = r.pid ∷ [];
  container_id = none;
  fallback_endpoints = site.fallback_endpoints;
}

-- One process more: its PID goes to the engine on its endpoint, if there is one. The map of the
-- endpoints seen, to places in the list, stands as a search of the list.
unfoldable pub add_engine : List DetectedEngine → DetectedEngine → List DetectedEngine
add_engine [] found = found ∷ []
add_engine (d ∷ detected) found =
    let rest = add_engine detected found in
    if detected_key d == detected_key found
    then record d { pids = d.pids ++ found.pids } ∷ detected
    else d ∷ rest

abbrev pub add_found : List DetectedEngine → Option DetectedEngine → List DetectedEngine
add_found detected none = detected
add_found detected (some found) = add_engine detected found

abbrev pub expanded : Tree → DetectedEngine → DetectedEngine
expanded tree d = record d { pids = expand_pid_tree d.pids tree }

-- `parse::<IpAddr>` is a parameter, and so is the reading of a variable of a process's environment,
-- `none` where that fails.
module _ (parse_ip : String → Option IpAddr) (env_of : ℕ → String → Option (Option String)) where
  abbrev pub env : ℕ → String → Option String
  env pid name = bind_some (env_of pid name) (λ value. value)

  unfoldable pub site_of : ℕ → List OsArg → EngineType → Option Site
  site_of pid cmd ollama = some (record {
    endpoint = endpoint parse_ip (from_env parse_ip (env pid "OLLAMA_HOST"));
    fallback_endpoints = [];
    served_model = none;
  })
  site_of pid cmd llama_cpp =
      let launch = llamacpp_launch (map (λ arg. arg.to_string_lossy) cmd) (env pid) in
      bind_some (listen launch (default_ports native))
        (λ l. site_at (endpoints parse_ip l) (served_model launch))
  site_of pid cmd vllm = some (record {
    endpoint = parse_endpoint_from_args (texts cmd) (default_endpoint vllm);
    fallback_endpoints = [];
    served_model = parse_model_from_args (texts cmd);
  })
  site_of pid cmd sglang = some (record {
    endpoint = parse_endpoint_from_args (texts cmd) (default_endpoint sglang);
    fallback_endpoints = [];
    served_model = parse_sglang_model_parts (texts cmd);
  })

  -- The engine that a process alone makes; none for an owned one.
  unfoldable pub engine_of : List ℕ → HostProcess → Option DetectedEngine
  engine_of taken r =
      if has r.pid taken
      then none
      else bind_some (engine_of_process r.cmd) (λ engine_type.
        bind_some (site_of r.pid r.cmd engine_type) (λ site. some (found_of r engine_type site)))

  abbrev pub collect : List ℕ → List DetectedEngine → List HostProcess → List DetectedEngine
  collect taken detected [] = detected
  collect taken detected (r ∷ processes) =
      collect taken (add_found detected (engine_of taken r)) processes

  unfoldable pub engines_from_processes : List HostProcess → List DetectedEngine
  engines_from_processes processes =
      map (expanded (tree_of processes)) (collect (owned processes) [] processes)
