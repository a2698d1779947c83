-- ===== src/Ollama/Identify.antt =====
-- engines/ollama.rs: which server is an Ollama. The parsing of JSON is a parameter.
use spark_dashboard.Prelude.{
  String, Bool, false, Option, none, some, bind_some, is_some, if◌then◌else◌,
}
use spark_dashboard.Json.{Json, get, as_text, as_array}
use spark_dashboard.Http.{Server, Reply, answered, failed, is_success}

module _ (parse_json : String → Option Json) where
  unfoldable pub json_at : Reply → Option Json
  json_at (answered r) = if is_success r.status then bind_some r.body parse_json else none
  json_at (failed timeout message) = none

  abbrev pub has_models : Option Json → Bool
  has_models ps = is_some (bind_some (bind_some ps (λ v. get v "models")) as_array)

  -- `/api/ps`, which a loading Ollama does not answer in time.
  unfoldable pub ps_answers_like_ollama : Reply → Bool
  unfolding json_at get
  ps_answers_like_ollama (answered r) = has_models (json_at (answered r))
  ps_answers_like_ollama (failed timeout message) = timeout

  unfoldable pub identify : Server → Bool
  unfolding json_at get
  identify server = elim (json_at (server "/api/version")) [
    | none ↦ false
    | some version ↦
        if is_some (bind_some (get version "version") as_text)
        then ps_answers_like_ollama (server "/api/ps")
        else false
  ]
