-- ===== src/Ollama/Adapter.antt =====
-- engines/ollama.rs: `OllamaAdapter`, the models that a server has loaded. What serde reads of a body
-- is a parameter.
use spark_dashboard.Prelude.{
  ℕ, String, Bool, false, not, Option, none, some, List, [], ◌∷◌, bind_some, or_else, or_default,
  ltb, if◌then◌else◌,
}
use spark_dashboard.Text.{trim, starts_with, is_empty_text}
use spark_dashboard.Text.Chars.{text_le}
use spark_dashboard.Int.{ℤ, try_from}
use spark_dashboard.Sorting.{sort}
use spark_dashboard.Http.{Server, Reply, answered, failed, is_success, health}
use spark_dashboard.Engine.Types.{EngineStatus, ModelResolution, LoadedModel}
use spark_dashboard.Engine.Metrics.{GroupSet, EngineMetrics}

pub record PsDetails : Type 0 where
  pub parameter_size : Option String
  pub quantization_level : Option String

pub record PsModel : Type 0 where
  pub name : Option String
  pub model : Option String
  pub size : Option ℤ
  pub size_vram : Option ℤ
  pub details : Option PsDetails
  pub expires_at : Option String
  pub context_length : Option ℤ

pub record PsResponse : Type 0 where
  pub models : List PsModel

-- What has characters that are not white space.
abbrev pub is_shown : String → Bool
is_shown s = not (is_empty_text (trim s))

abbrev pub filter_option {ℓ} : {A : Type ℓ} → (A → Bool) → Option A → Option A
filter_option p none = none
filter_option p (some a) = if p a then some a else none

abbrev pub present : Option String → Option String
present s = filter_option is_shown s

unfoldable pub is_zero_time : String → Bool
unfolding starts_with
is_zero_time timestamp = starts_with timestamp "0001-01-01"

abbrev pub bytes : Option ℤ → ℕ
bytes n = or_default 0 (bind_some n (try_from 64))

abbrev pub default_details : PsDetails
default_details = record { parameter_size = none; quantization_level = none }

abbrev pub loaded_as : String → PsDetails → PsModel → LoadedModel
loaded_as name details entry = record {
  name = name;
  parameter_size = present details.parameter_size;
  quantization = present details.quantization_level;
  size_bytes = bytes entry.size;
  vram_bytes = bytes entry.size_vram;
  context_length = filter_option (ltb 0) (bind_some entry.context_length (try_from 32));
  expires_at = filter_option (λ t. not (is_zero_time t)) (present entry.expires_at);
}

unfoldable pub loaded_model : PsModel → Option LoadedModel
unfolding trim is_zero_time
loaded_model entry =
    bind_some (or_else (present entry.name) (present entry.model))
      (λ name. some (loaded_as name (or_default default_details entry.details) entry))

unfoldable pub filter_map {ℓ κ} : {A : Type ℓ} {B : Type κ} → (A → Option B) → List A → List B
filter_map f [] = []
filter_map f (x ∷ l) = let rest = filter_map f l in elim (f x) [ some y ↦ y ∷ rest | none ↦ rest ]

abbrev pub name_le : LoadedModel → LoadedModel → Bool
name_le a b = text_le a.name b.name

-- Nothing is reported.
abbrev pub metric_groups : GroupSet
metric_groups group = false

unfoldable pub health_check : (ℕ → String) → Server → EngineStatus
unfolding health
health_check reason server = health reason server "/api/version"

abbrev pub get_model_info : ModelResolution
get_model_info = record { model = none; metadata_error = none }

abbrev pub get_metrics : {F : Type 0} → Option (EngineMetrics F)
get_metrics = none

pub record OllamaAdapter : Type 0 where
  pub loaded : List LoadedModel

abbrev pub new : OllamaAdapter
new = record { loaded = [] }

abbrev pub loaded_models : OllamaAdapter → Option (List LoadedModel)
loaded_models a = some a.loaded

module _ (read_response : String → Option PsResponse) where
  unfoldable pub parse_ps : String → Option (List LoadedModel)
  unfolding sort filter_map loaded_model text_le
  parse_ps body =
      bind_some (read_response body)
        (λ response. some (sort name_le (filter_map loaded_model response.models)))

  unfoldable pub read_ps : Reply → Option (List LoadedModel)
  unfolding parse_ps
  read_ps (answered r) = if is_success r.status then bind_some r.body parse_ps else none
  read_ps (failed timeout message) = none

  unfoldable pub refresh_loaded_models : Server → OllamaAdapter → OllamaAdapter
  unfolding read_ps
  refresh_loaded_models server a = elim (read_ps (server "/api/ps")) [
    | some models ↦ record { loaded = models }
    | none ↦ a
  ]
