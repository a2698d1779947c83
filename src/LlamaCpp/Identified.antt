-- ===== src/LlamaCpp/Identified.antt =====
-- engines/llamacpp.rs: which server is a llama-server.
use spark_dashboard.Prelude.{
  ℕ, String, Bool, false, ◌&&◌, ◌||◌, Option, none, some, bind_some, is_some, ◌==◌, nat_eq,
  string_eq, if◌then◌else◌,
}
use spark_dashboard.Text.{starts_with, trim}
use spark_dashboard.Json.{Json, get, as_text, as_u64}
use spark_dashboard.Http.{Server, Reply, answered, failed, body_of}
use spark_dashboard.LlamaCpp.Answers.{is_text_of, is_loading}

-- `server_names_llamacpp`; `to_lowercase` is `to_ascii_lowercase`.
unfoldable pub server_names_llamacpp : (String → String) → Option String → Option Bool
unfolding trim starts_with
server_names_llamacpp to_lowercase none = none
server_names_llamacpp to_lowercase (some header) =
    let name = to_lowercase (trim header) in
    some (name == "llama.cpp" || starts_with name "llama.cpp/")

module _ (parse_json : String → Option Json) where
  unfoldable pub health_answers_like_llamacpp : ℕ → String → Bool
  unfolding is_loading get
  health_answers_like_llamacpp status body =
      if status == 200
      then is_text_of (bind_some (parse_json body) (λ v. get v "status")) "ok"
      else status == 503 && is_loading parse_json body

  abbrev pub is_props : Json → Bool
  is_props v =
      is_some (bind_some (get v "build_info") as_text)
      || is_some (bind_some (get v "total_slots") as_u64)
      || is_text_of (get v "role") "router"

  unfoldable pub props_answers_like_llamacpp : ℕ → String → Bool
  unfolding is_loading
  props_answers_like_llamacpp status body =
      if status == 200
      then elim (parse_json body) [ some v ↦ is_props v | none ↦ false ]
      else status == 401 || status == 403 || status == 503 && is_loading parse_json body

  -- `/props`, where `/health` answered like llama-server.
  abbrev pub confirmed_by_props : Reply → Bool
  confirmed_by_props (answered r) = props_answers_like_llamacpp r.status (body_of r)
  confirmed_by_props (failed timeout message) = false

  unfoldable pub identify : (String → String) → Server → Bool
  unfolding server_names_llamacpp health_answers_like_llamacpp props_answers_like_llamacpp
  identify to_lowercase server = elim (server "/health") [
    | failed timeout message ↦ false
    | answered r ↦ elim (server_names_llamacpp to_lowercase r.server) [
      | some is_named ↦ is_named && (r.status == 200 || r.status == 503)
      | none ↦
          health_answers_like_llamacpp r.status (body_of r) && confirmed_by_props (server "/props")
    ]
  ]
