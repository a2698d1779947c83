-- ===== src/Ollama/Tests.antt =====
-- A server that lists two models, and one that a loading model holds up.
use spark_dashboard.Prelude.{String, ◌≡◌, refl, true, Option, none, some, inl, List, [], ◌∷◌}
use spark_dashboard.Int.{pos}
use spark_dashboard.Http.{Server, answered, failed}
use spark_dashboard.Engine.Types.{LoadedModel}
use spark_dashboard.Ollama.Adapter.{PsModel, PsResponse, new, loaded_models}
use spark_dashboard.Ollama.Refresh.{refresh_all, refresh_all-last_list}
use spark_dashboard.Ollama.Loaded.{IsListing}

abbrev entry : String → PsModel
entry name = record {
  name = some name;
  model = none;
  size = some (pos 5);
  size_vram = none;
  details = none;
  expires_at = some "0001-01-01T00:00:00Z";
  context_length = some (pos 4096);
}

abbrev response : PsResponse
response = record { models = entry "qwen" ∷ entry "gemma" ∷ [] }

abbrev read_response : String → Option PsResponse
read_response body = some response

abbrev shown : String → LoadedModel
shown name = record {
  name = name;
  parameter_size = none;
  quantization = none;
  size_bytes = 5;
  vram_bytes = 0;
  context_length = some 4096;
  expires_at = none;
}

abbrev both : List LoadedModel
both = shown "gemma" ∷ shown "qwen" ∷ []

abbrev listing : Server
listing path = answered (record { status = 200; server = none; body = some "body" })

abbrev loading : Server
loading path = failed true "timed out"

abbrev broken : Server
broken path = answered (record { status = 500; server = none; body = some "body" })

refresh_all-last_list_example :
    (models : List LoadedModel) × (loaded_models
        (refresh_all read_response (loading ∷ listing ∷ broken ∷ loading ∷ []) new)
      ≡ some models)
    × IsListing response.models models
refresh_all-last_list_example =
    refresh_all-last_list read_response (loading ∷ []) (broken ∷ loading ∷ []) listing new response
      (record { status = 200; server = none; body = some "body" }, "body", refl, refl, refl, refl)
      (inl refl, (tt, tt))
