-- ===== src/Detection/Tests.antt =====
-- Command lines, containers and process tables as the detection meets them.
use spark_dashboard.Prelude.{
  ℕ, String, ◌≡◌, ◌↔◌, refl, true, false, not, ◌&&◌, ◌||◌, Option, none, some, List, [], ◌∷◌,
  is_empty, All, string_eq,
}
use spark_dashboard.Text.{IpAddr, starts_with}
use spark_dashboard.Engine.Types.{vllm, sglang, llama_cpp, docker}
use spark_dashboard.Engine.Collector.{DetectedEngine}
use spark_dashboard.Detection.PidLists.{sort, has}
use spark_dashboard.Detection.Candidates.{is_docker, merge_docker_candidates}
use spark_dashboard.Detection.PidTree.Children.{root}
use spark_dashboard.Detection.Commands.{engine_of_process, OsArg, engine_of_command, runs_engine}
use spark_dashboard.Detection.Commands.Evidence.{Evidence, engine_of_command-Evidence}
use spark_dashboard.Detection.Containers.{ContainerClass, classify_container}
use spark_dashboard.Detection.Launch.{
  read_arg, port, model, hf_repo, LlamaCppLaunch, LlamaCppListen, launch_of, llamacpp_launch,
}
use spark_dashboard.Detection.Launch.Given.{
  Given, separate, inline, other, command_line, meant, llamacpp_launch-command_line,
}
use spark_dashboard.Detection.Endpoints.{
  docker_endpoint, PublishedPort, tcp_bindings, is_host_network, is_assumed_reachable,
  llamacpp_container_endpoints,
}
use spark_dashboard.Detection.Endpoints.Published.{llamacpp_container_endpoints_unreachable}
use spark_dashboard.Detection.Arguments.{
  top_row_command, parse_model_for, parse_pid_from_top_row, parse_port_from_command_str,
}
use spark_dashboard.Detection.Processes.{HostProcess, tree_of, owned, engines_from_processes}
use spark_dashboard.Detection.Processes.Engines.{pids_at}
use spark_dashboard.Detection.Processes.Grouping.{
  roots_at, of_roots, engines_from_processes_pids, roots_at-NotOwned,
}
use spark_dashboard.Detection.Docker.{
  is_confirmed, rows_of, container_site, vllm_or_sglang_site, Container, DockerApi, class_of,
  detect_container, detect_docker_engines,
}
use spark_dashboard.Detection.Docker.Confirmed.{
  IsCredible, detect_container-Confirmed, container_processes_claimed,
}

-- No text is an IP address here, and lower case is left as it is.
abbrev no_ip : String → Option IpAddr
no_ip text = none

abbrev same_text : String → String
same_text text = text

abbrev no_env : String → Option String
no_env name = none

abbrev no_environ : ℕ → String → Option (Option String)
no_environ pid name = none

abbrev sglang_line : List String
sglang_line = "python3" ∷ "-m" ∷ "sglang.launch_server" ∷ "--download-dir" ∷ "/data/vllm" ∷ []

engine_of_command-Evidence_example :
    (engine_of_command sglang_line ≡ some sglang) ↔ Evidence sglang sglang_line
engine_of_command-Evidence_example = engine_of_command-Evidence sglang_line sglang

abbrev proxy_class : ContainerClass
proxy_class = record { engine_type = vllm; strong_signal = false }

-- The port is said twice, and the repository with an underscore in the flag.
abbrev given : List Given
given =
    other "/app/llama-server"
    ∷ separate port "--port" "8080"
    ∷ inline model "--model" "/m.gguf"
    ∷ separate port "--port" "9000"
    ∷ separate hf_repo "--hf_repo" "ggml-org/gemma"
    ∷ []

llamacpp_launch-command_line_example :
    llamacpp_launch (command_line given) no_env ≡ launch_of (meant given no_env)
unfolding read_arg starts_with
llamacpp_launch-command_line_example =
    llamacpp_launch-command_line given no_env (refl, (refl, ((refl, refl), (refl, (refl, tt)))))

abbrev socket_launch : LlamaCppLaunch
socket_launch = record {
  host = some "/run/llama.sock";
  port = none;
  alias = none;
  hf_repo = none;
  docker_repo = none;
  model = none;
}

abbrev default_listen : LlamaCppListen
default_listen = record { host = none; port = 9931; fallback_ports = 8080 ∷ [] }

abbrev published : List PublishedPort
published = record { container = 8080; host = some 18080; host_ip = none; tcp = true } ∷ []

llamacpp_container_endpoints_unreachable_example :
    is_empty (llamacpp_container_endpoints no_ip default_listen (some "bridge") []) ≡ (
      not (is_host_network (some "bridge"))
      && (is_empty (tcp_bindings []) && not (is_assumed_reachable (some "bridge"))))
llamacpp_container_endpoints_unreachable_example =
    llamacpp_container_endpoints_unreachable no_ip default_listen (some "bridge") []

abbrev arg : String → OsArg
arg text = record { to_str = some text; to_string_lossy = text }

-- An Ollama server with a runner below it, and a vLLM server.
abbrev processes : List HostProcess
processes =
    record { pid = 5; parent = none; cmd = arg "ollama" ∷ arg "serve" ∷ [] }
    ∷ record { pid = 6; parent = some 5; cmd = arg "llama-server" ∷ [] }
    ∷ record { pid = 7; parent = none; cmd = arg "vllm" ∷ arg "serve" ∷ arg "m" ∷ [] }
    ∷ []

engines_from_processes_pids_example :
    pids_at (vllm, "http://localhost:8000") (engines_from_processes no_ip no_environ processes)
    ≡ of_roots no_ip no_environ
        (tree_of processes)
        (roots_at no_ip no_environ (owned processes) (vllm, "http://localhost:8000") processes)
engines_from_processes_pids_example =
    engines_from_processes_pids no_ip no_environ (vllm, "http://localhost:8000") processes

roots_at-NotOwned_example :
    has 6
      (roots_at no_ip no_environ (owned processes) (llama_cpp, "http://localhost:9931") processes)
    ≡ false
unfolding engine_of_process
roots_at-NotOwned_example =
    roots_at-NotOwned no_ip no_environ (llama_cpp, "http://localhost:9931") processes 6
      (root 6 refl)

-- A container that is named like vLLM, whose process runs it.
abbrev api : DockerApi
api = record {
  top_processes = λ id. some (("40" ∷ "vllm serve m" ∷ []) ∷ []);
  container_env = λ id. none;
}

abbrev container : Container
container = record {
  id = some "c1";
  image = some "private";
  command = some "sleep infinity";
  names = "/vllm" ∷ [];
  ports = [];
  network_mode = some "host";
}

abbrev found : DetectedEngine
found = record {
  engine_type = vllm;
  endpoint = "http://localhost:8000";
  deployment_mode = docker;
  served_model = some "m";
  pids = 40 ∷ [];
  container_id = some "c1";
  fallback_endpoints = [];
}

detect_container-Confirmed_example :
    (found.container_id ≡ container.id)
    × (is_docker found.deployment_mode ≡ true)
    × IsCredible same_text no_ip api found.engine_type container
unfolding detect_container class_of classify_container is_confirmed rows_of runs_engine
    top_row_command container_site vllm_or_sglang_site sort docker_endpoint parse_model_for
    parse_pid_from_top_row parse_port_from_command_str
detect_container-Confirmed_example =
    detect_container-Confirmed same_text no_ip api container found refl

container_processes_claimed_example :
    All
      (λ c. (is_docker c.deployment_mode || not (has 40 c.pids)) ≡ true)
      (merge_docker_candidates [] (detect_docker_engines same_text no_ip api (container ∷ [])))
unfolding detect_container class_of classify_container is_confirmed rows_of runs_engine
    top_row_command container_site sort parse_pid_from_top_row
container_processes_claimed_example =
    container_processes_claimed same_text no_ip api 40 [] (container ∷ []) refl
