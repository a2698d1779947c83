-- ===== src/LlamaCpp/Answers.antt =====
-- engines/llamacpp.rs: what the answers of a llama-server say. The parsing of JSON is a parameter.
use mathlib.Core.Option
use spark_dashboard.Prelude.{
  ◌%◌, ◌^◌, ℕ, ◌+◌, String, Bool, true, false, ◌&&◌, ◌||◌, Option, none, some, List, [], ◌∷◌, any,
  bind_some, or_default, leb, ltb, get_elem?, ◌==◌, nat_eq, string_eq, if◌then◌else◌,
}
use spark_dashboard.Text.{append, digits, trim, is_empty_text}
use spark_dashboard.Json.{Json, get, as_array, as_text, as_bool, as_u64, is_object}
use spark_dashboard.Http.{is_success, http_error}
use spark_dashboard.Engine.Types.{
  EngineStatus, running, loading, ModelMetadataError, auth_required, unavailable, ModelInfo,
  ModelResolution, named,
}

pub data Role : Type 0 where
  single_model router : Role

pub record ServerFacts : Type 0 where
  pub role : Role
  pub slots_endpoint : Bool

-- What the answered scrapes say of the metrics endpoint.
pub data MetricsAnswer : Type 0 where
  on off refused needs_model transient : MetricsAnswer

pub data MetricsAccess : Type 0 where
  open_access off_access refused_access : MetricsAccess

abbrev pub is_on : MetricsAnswer → Bool
is_on on = true
is_on _ = false

abbrev pub is_off_access : MetricsAccess → Bool
is_off_access off_access = true
is_off_access _ = false

abbrev pub is_refused_access : MetricsAccess → Bool
is_refused_access refused_access = true
is_refused_access _ = false

unfoldable pub metrics_answer : ℕ → MetricsAnswer
metrics_answer status =
    if is_success status
    then on
    else if status == 501
    then off
    else if status == 401 || status == 403
    then refused
    else if status == 400
    then needs_model
    else transient

-- A router is never off.
abbrev pub open_to_router : MetricsAccess → Option Role → MetricsAccess
open_to_router off_access (some router) = open_access
open_to_router off_access (some single_model) = off_access
open_to_router off_access none = off_access
open_to_router open_access role = open_access
open_to_router refused_access role = refused_access

unfoldable pub latched : MetricsAnswer → MetricsAccess → Option Role → MetricsAccess
latched on was role = open_to_router open_access role
latched needs_model was role = open_to_router open_access role
latched off was role = open_to_router off_access role
latched refused was role = open_to_router refused_access role
latched transient was role = open_to_router was role

abbrev pub is_text_of : Option Json → String → Bool
is_text_of value expected = elim (bind_some value as_text) [ some t ↦ t == expected | none ↦ false ]

pub data PropsAnswer : Type 0 where
  facts : ServerFacts → PropsAnswer
  props_refused : PropsAnswer
  props_failed : PropsAnswer

pub data ModelsAnswer : Type 0 where
  model : ModelInfo → ModelsAnswer
  router_list : ModelsAnswer
  models_failed : ModelMetadataError → ModelsAnswer

-- `classify_models_error_status` of engines/model_info.rs
unfoldable pub classify_models_error_status : ℕ → ModelMetadataError
classify_models_error_status status =
    if status == 401 || status == 403 then auth_required else unavailable

-- `format_param_size` of engines/model_info.rs; `format_tenths` is a quotient with one decimal.
unfoldable pub format_param_size : (ℕ → ℕ → String) → ℕ → String
unfolding append digits
format_param_size format_tenths count =
    if leb 1000000000 count
    then append (format_tenths count 1000000000) "B params"
    else if leb 1000000 count
    then append (format_tenths count 1000000) "M params"
    else append (digits 6 count) " params"

unfoldable pub resolution : ModelsAnswer → Option String → ModelResolution
resolution (model info) hint = record { model = some info; metadata_error = none }
resolution router_list hint = record { model = none; metadata_error = none }
resolution (models_failed reason) hint = record {
  model = Option.map named hint;
  metadata_error = some reason;
}

pub record Slots : Type 0 where
  pub decoded_in_flight : ℕ
  pub speculative : Bool

abbrev pub is_set : Json → String → Bool
is_set slot name = or_default false (bind_some (get slot name) as_bool)

-- `/next_token/0/n_decoded`
abbrev pub decoded : Json → Option ℕ
decoded slot = bind_some (get slot "next_token") (λ tokens.
    bind_some (as_array tokens)
      (λ list. bind_some (get_elem? list 0) (λ token. bind_some (get token "n_decoded") as_u64)))

-- The sum wraps around at 2^64.
abbrev pub sum_decoded : List Json → ℕ
sum_decoded [] = 0
sum_decoded (slot ∷ slots) =
    let rest = sum_decoded slots in
    if is_set slot "is_processing" then (or_default 0 (decoded slot) + rest) % 2 ^ 64 else rest

module _ (parse_json : String → Option Json) where
  unfoldable pub error_message : String → Option String
  unfolding get
  error_message body =
      bind_some (parse_json body)
        (λ v. bind_some (get v "error") (λ e. bind_some (get e "message") as_text))

  unfoldable pub is_loading : String → Bool
  unfolding error_message
  is_loading body = elim (error_message body) [
    | some message ↦ message == "Loading model"
    | none ↦ false
  ]

  unfoldable pub health_status : (ℕ → String) → ℕ → String → EngineStatus
  unfolding is_loading http_error
  health_status reason status body =
      if is_success status
      then running
      else if status == 503 && is_loading body
      then loading
      else http_error reason status

  unfoldable pub parse_props : String → Option ServerFacts
  unfolding get
  parse_props body = bind_some (parse_json body) (λ props.
      if is_object props
      then some (record {
        role = if is_text_of (get props "role") "router" then router else single_model;
        slots_endpoint = or_default false (bind_some (get props "endpoint_slots") as_bool);
      })
      else none)

  unfoldable pub classify_props_answer : ℕ → String → PropsAnswer
  unfolding parse_props
  classify_props_answer status body =
      if is_success status
      then elim (parse_props body) [ some f ↦ facts f | none ↦ props_failed ]
      else if status == 401 || status == 403
      then props_refused
      else props_failed

  module _ (format_tenths : ℕ → ℕ → String) where
    -- A parameter count that is known, as a text.
    abbrev pub size_text : Option ℕ → Option String
    size_text none = none
    size_text (some n) = if ltb 0 n then some (format_param_size format_tenths n) else none

    abbrev pub trimmed_text : Option String → Option String
    trimmed_text none = none
    trimmed_text (some t) = if is_empty_text (trim t) then none else some (trim t)

    unfoldable pub model_of : Json → Option ModelInfo
    unfolding get trim format_param_size
    model_of entry = bind_some (trimmed_text (bind_some (get entry "id") as_text)) (λ name.
        let meta = get entry "meta" in
        some (record (named name) {
          parameter_size = size_text (bind_some (bind_some meta (λ m. get m "n_params")) as_u64);
          quantization = trimmed_text (bind_some (bind_some meta (λ m. get m "ftype")) as_text);
        }))

    abbrev pub has_status : Json → Bool
    has_status entry = elim (get entry "status") [ some status ↦ is_object status | none ↦ false ]

    abbrev pub model_answer : Option ModelInfo → ModelsAnswer
    model_answer none = models_failed unavailable
    model_answer (some info) = model info

    unfoldable pub classify_models_answer : ℕ → String → ModelsAnswer
    unfolding get model_of
    classify_models_answer status body =
        if is_success status
        then elim (bind_some (parse_json body) (λ v. bind_some (get v "data") as_array)) [
          | none ↦ models_failed unavailable
          | some entries ↦
              if any has_status entries
              then router_list
              else model_answer (bind_some (get_elem? entries 0) model_of)
        ]
        else models_failed (classify_models_error_status status)

  unfoldable pub parse_slots : String → Option Slots
  unfolding get
  parse_slots body = bind_some (parse_json body) (λ v. bind_some (as_array v) (λ slots.
      some (record {
        decoded_in_flight = sum_decoded slots;
        speculative = any (λ slot. is_set slot "speculative") slots;
      })))
