-- ===== src/Models/Tests.antt =====
-- A model of the hub's cache, and a hub that knows it.
use spark_dashboard.Prelude.{List, [], ◌∷◌, ℕ, String, ◌≡◌, refl, true, Option, none, some, [], ◌∷◌}
use mathlib.Core.Option
use spark_dashboard.Text.{append, split}
use spark_dashboard.Text.Chars.{all_chars}
use spark_dashboard.Http.{Server, answered, failed}
use spark_dashboard.Models.{
  HfModelResponse, OpenAiModelsResponse, new, fetch_hf_model_info, resolve, resolve_model_name,
  models_reply, hf_model, is_hub_id,
}
use spark_dashboard.Models.Names.{normalize_model_id, first_repo}
use spark_dashboard.Models.Hub.{Fetch, fetch_all, resolve-names, fetch_once}
use spark_dashboard.Models.Paths.{cache_segment, dashes_apart, normalize_model_id-cache}

abbrev root : String
root = "/root/.cache/huggingface/hub"

normalize_model_id-cache_example :
    normalize_model_id
      (append root (append "/" (append (cache_segment "Qwen" "Qwen3-32B") "/snapshots/0a1b")))
    ≡ "Qwen/Qwen3-32B"
unfolding first_repo split all_chars dashes_apart
normalize_model_id-cache_example =
    normalize_model_id-cache root "Qwen" "Qwen3-32B" "/snapshots/0a1b" refl refl refl refl refl

normalized_snapshot :
    normalize_model_id "/models/qwen/snapshots/0123456789abcdef0123456789abcdef01234567"
    ≡ "/models/qwen"
unfolding normalize_model_id
normalized_snapshot = refl

abbrev tenths : ℕ → ℕ → String
tenths count unit = "7.6"

abbrev described : HfModelResponse
described = record {
  pipeline_tag = some "text-generation";
  safetensors =
      some (record { total = some 7615616512; parameters = some (("BF16", 7615616512) ∷ []) });
  config = none;
}

abbrev read_hf : String → Option HfModelResponse
read_hf body = some described

abbrev read_models : String → Option OpenAiModelsResponse
read_models body = some (record { models = record { id = "Qwen/Qwen2.5-7B" } ∷ [] })

abbrev knows_all : Server
knows_all url = answered (record { status = 200; server = none; body = some "{}" })

abbrev unreachable : Server
unreachable url = failed true "timeout"

resolve-names_example :
    Option.map
      (λ m. m.name)
      (resolve tenths read_hf read_models knows_all (some unreachable) 5 6 (new none)).0.model
    ≡ Option.map normalize_model_id
        (resolve_model_name (models_reply read_models (knows_all "/v1/models")) none).0
resolve-names_example =
    resolve-names tenths read_hf read_models knows_all (some unreachable) 5 6 (new none)

-- Two later fetches, one of a hub that cannot be reached and one without a hub.
abbrev later : List Fetch
later =
    record { hub = some unreachable; now = 7; at = 8 }
    ∷ record { hub = none; now = 100000; at = 100001 }
    ∷ []

fetch_once_example :
    let first =
      fetch_hf_model_info tenths read_hf (some knows_all) "Qwen/Qwen2.5-7B" 5 6 (new none) in
    let known = some (hf_model tenths "Qwen/Qwen2.5-7B" described) in
    fetch_all tenths read_hf "Qwen/Qwen2.5-7B" later first.1 ≡ (known ∷ known ∷ [], first.1)
unfolding fetch_hf_model_info is_hub_id
fetch_once_example =
    fetch_once tenths read_hf (some knows_all) later "Qwen/Qwen2.5-7B" 5 6 (new none)
      (hf_model tenths "Qwen/Qwen2.5-7B" described) refl
