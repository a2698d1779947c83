-- ===== src/Detection/Probe.antt =====
-- engines/detector.rs: `probe_engine`, which asks a server whether it is an engine of a type.
use spark_dashboard.Prelude.{
  String, Bool, true, false, not, ◌&&◌, Option, none, some, ◌==◌, nat_eq, if◌then◌else◌,
}
use spark_dashboard.Json.{Json}
use spark_dashboard.Http.{Server, Reply, answered, failed, is_success}
use spark_dashboard.Engine.Types.{EngineType, vllm, sglang, ollama, llama_cpp}
use spark_dashboard.Ollama.Identify
use spark_dashboard.LlamaCpp.Identified
pub mod Ollamas
pub mod Told
mod Tests

abbrev pub is_success_reply : Reply → Bool
is_success_reply (answered r) = is_success r.status
is_success_reply (failed timeout message) = false

-- The route is there: it answers, and not with 404.
abbrev pub is_served : Reply → Bool
is_served (answered r) = not (r.status == 404)
is_served (failed timeout message) = false

unfoldable pub probe_sglang : Server → Bool
probe_sglang server = elim (server "/ready") [
  | failed timeout message ↦ false
  | answered ready ↦
      if is_success ready.status
      then is_served (server "/model_info")
      else if ready.status == 404
      then is_success_reply (server "/model_info")
      else false
]

-- JSON parsing and lower case are parameters.
unfoldable pub probe_engine :
    (String → Option Json) → (String → String) → Server → EngineType → Bool
unfolding probe_sglang
probe_engine parse_json to_lowercase server vllm = is_success_reply (server "/health")
probe_engine parse_json to_lowercase server sglang = probe_sglang server
probe_engine parse_json to_lowercase server ollama = Identify.identify parse_json server
probe_engine parse_json to_lowercase server llama_cpp =
    Identified.identify parse_json to_lowercase server
