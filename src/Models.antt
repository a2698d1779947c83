-- ===== src/Models.antt =====
-- engines/model_info.rs: `ModelResolver`, the model of an engine with the OpenAI API. What serde reads
-- of a body is a parameter.
pub mod Names
pub mod Hub
mod Tests
pub mod Paths
use mathlib.Core.Option
use spark_dashboard.Prelude.{
  ℕ, ◌-◌, ◌*◌, String, Bool, true, false, not, ◌&&◌, ◌||◌, Option, none, some, List, [], ◌∷◌, Assoc,
  lookup, bind_some, or_else, or_default, is_some, get_elem?, ltb, ◌==◌, nat_eq, string_eq,
  if◌then◌else◌,
}
use spark_dashboard.Text.{
  append, contains, starts_with, strip_prefix, split, split_once, rsplit_once, trim_end,
  trim_matches, is_char, is_empty_text, digits,
}
use spark_dashboard.Text.Chars.{text_length, all_chars, is_hexdigit}
use spark_dashboard.Models.Names.{normalize_model_id}
use spark_dashboard.Http.{Server, Reply, answered, failed, is_success}
use spark_dashboard.Engine.Types.{
  ModelMetadataError, auth_required, unavailable, ModelInfo, ModelResolution, named,
}
use spark_dashboard.LlamaCpp.Answers.{classify_models_error_status, format_param_size}

-- `ModelsEndpointReply`
pub data ModelsEndpointReply : Type 0 where
  resolved : String → ModelsEndpointReply
  no_models : ModelsEndpointReply
  unread : ModelMetadataError → ModelsEndpointReply

pub record OpenAiModel : Type 0 where
  pub id : String

pub record OpenAiModelsResponse : Type 0 where
  pub models : List OpenAiModel

pub record HfQuantizationConfig : Type 0 where
  pub bits : Option ℕ
  pub quant_method : Option String

pub record HfConfig : Type 0 where
  pub model_type : Option String
  pub quantization_config : Option HfQuantizationConfig

-- The order of the entries stands for the unspecified order of iteration.
pub record HfSafetensors : Type 0 where
  pub total : Option ℕ
  pub parameters : Option (Assoc String ℕ)

pub record HfModelResponse : Type 0 where
  pub pipeline_tag : Option String
  pub safetensors : Option HfSafetensors
  pub config : Option HfConfig

unfoldable pub format_quant_method : String → String
format_quant_method method =
    if method == "auto-round"
    then "AutoRound"
    else if method == "gptq"
    then "GPTQ"
    else if method == "awq"
    then "AWQ"
    else if method == "bitsandbytes"
    then "BitsAndBytes"
    else if method == "fp8"
    then "FP8"
    else method

unfoldable pub format_precision : ℕ → String
unfolding append digits
format_precision bits = append (digits 20 bits) "-bit precision"

-- The first of the keys that the parameters have.
unfoldable pub first_key : List String → Assoc String ℕ → Option String
unfolding lookup
first_key [] params = none
first_key (key ∷ keys) params =
    if is_some (lookup key params) then some key else first_key keys params

unfoldable pub format_tensor_type : Assoc String ℕ → Option String
unfolding first_key
format_tensor_type params =
    or_else (first_key ("BF16" ∷ "F16" ∷ "F32" ∷ "F64" ∷ "FP8" ∷ []) params)
      (Option.map (λ entry. entry.0) (get_elem? params 0))

unfoldable pub resolve_model_name :
    ModelsEndpointReply → Option String → Option String × Option ModelMetadataError
unfolding contains
resolve_model_name (resolved id) hint =
    (some (if contains id "/" then id else or_default id hint), none)
resolve_model_name no_models hint = (hint, some unavailable)
resolve_model_name (unread reason) hint = (hint, some reason)

pub record ModelResolver : Type 0 where
  pub served_model : Option String
  pub hf_model_cache : Option ModelInfo
  pub last_hf_error : Option ℕ

abbrev pub new : Option String → ModelResolver
new served_model = record {
  served_model = served_model;
  hf_model_cache = none;
  last_hf_error = none;
}

abbrev pub hub_url : String
hub_url = "https://huggingface.co/api/models/"

-- `HF_RETRY_COOLDOWN`, in nanoseconds
abbrev pub hf_retry_cooldown : ℕ
hf_retry_cooldown = 60 * 1000000000

abbrev pub is_cooling : Option ℕ → ℕ → Bool
is_cooling none now = false
is_cooling (some at) now = ltb (now - at) hf_retry_cooldown

-- The cached model, if it is the one of the name.
abbrev pub cached_as : String → Option ModelInfo → Option ModelInfo
cached_as model_id none = none
cached_as model_id (some cached) = if cached.name == model_id then some cached else none

-- A name of the form `org/name`, and no path of the file system.
unfoldable pub is_hub_id : String → Bool
unfolding contains starts_with
is_hub_id model_id =
    contains model_id "/"
    && not (starts_with model_id "/" || starts_with model_id "." || starts_with model_id "~")

-- An answer of the hub that can be read.
abbrev pub hf_answer : (String → Option HfModelResponse) → Reply → Option HfModelResponse
hf_answer read_hf (answered r) = if is_success r.status then bind_some r.body read_hf else none
hf_answer read_hf (failed timeout message) = none

abbrev pub first_model : OpenAiModelsResponse → ModelsEndpointReply
first_model r = elim (get_elem? r.models 0) [ some m ↦ resolved m.id | none ↦ no_models ]

-- `/v1/models`
unfoldable pub models_reply : (String → Option OpenAiModelsResponse) → Reply → ModelsEndpointReply
models_reply read_models (failed timeout message) = unread unavailable
models_reply read_models (answered r) =
    if is_success r.status
    then elim (bind_some r.body read_models) [
      | some models ↦ first_model models
      | none ↦ unread unavailable
    ]
    else unread (classify_models_error_status r.status)

abbrev pub enriched : String → Option ModelInfo → ModelInfo
enriched name none = named name
enriched name (some m) = m

-- `format_tenths` is a quotient with one decimal.
module _ (format_tenths : ℕ → ℕ → String) where
  unfoldable pub hf_model : String → HfModelResponse → ModelInfo
  unfolding format_param_size format_quant_method format_precision format_tensor_type
  hf_model model_id hf =
      let quant_config = bind_some hf.config (λ c. c.quantization_config) in
      record {
        name = model_id;
        parameter_size =
            Option.map (format_param_size format_tenths) (bind_some hf.safetensors (λ s. s.total));
        quantization =
            Option.map format_quant_method (bind_some quant_config (λ q. q.quant_method));
        precision = Option.map format_precision (bind_some quant_config (λ q. q.bits));
        tensor_type = bind_some (bind_some hf.safetensors (λ s. s.parameters)) format_tensor_type;
        model_type = bind_some hf.config (λ c. c.model_type);
        pipeline_tag = hf.pipeline_tag;
      }

  -- The answer of the hub is kept, or the moment of the failure.
  abbrev pub hf_fetched :
      String → ℕ → Option HfModelResponse → ModelResolver → Option ModelInfo × ModelResolver
  hf_fetched model_id at none s = (none, record s { last_hf_error = some at })
  hf_fetched model_id at (some hf) s =
      let result = hf_model model_id hf in (some result, record s { hf_model_cache = some result })

  module _ (read_hf : String → Option HfModelResponse) where
    -- The hub is none where its client cannot be built.
    abbrev pub ask_hub :
        Option Server → String → ℕ → ModelResolver → Option ModelInfo × ModelResolver
    ask_hub none model_id at s = (none, s)
    ask_hub (some hub) model_id at s =
        hf_fetched model_id at (hf_answer read_hf (hub (append hub_url model_id))) s

    -- The clock is read at `now` and, on a failure, at `at`.
    unfoldable pub fetch_hf_model_info :
        Option Server → String → ℕ → ℕ → ModelResolver → Option ModelInfo × ModelResolver
    fetch_hf_model_info hub model_id now at s = elim (cached_as model_id s.hf_model_cache) [
      | some cached ↦ (some cached, s)
      | none ↦
          if is_cooling s.last_hf_error now || not (is_hub_id model_id)
          then (none, s)
          else ask_hub hub model_id at s
    ]

    abbrev pub resolve_named :
        Option Server
        → ℕ
        → ℕ
        → Option String
        → Option ModelMetadataError
        → ModelResolver
        → ModelResolution × ModelResolver
    resolve_named hub now at none metadata_error s =
        (record { model = none; metadata_error = metadata_error }, s)
    resolve_named hub now at (some name) metadata_error s =
        let id = normalize_model_id name in
        let fetched = fetch_hf_model_info hub id now at s in
        (
          record { model = some (enriched id fetched.0); metadata_error = metadata_error },
          fetched.1,
        )

    unfoldable pub resolve :
        (String → Option OpenAiModelsResponse)
        → Server
        → Option Server
        → ℕ
        → ℕ
        → ModelResolver
        → ModelResolution × ModelResolver
    resolve read_models server hub now at s =
        let reply = models_reply read_models (server "/v1/models") in
        let found = resolve_model_name reply s.served_model in
        resolve_named hub now at found.0 found.1 s
