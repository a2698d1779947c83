-- ===== src/LlamaCpp/Adapter.antt =====
-- engines/llamacpp.rs: `LlamaCppAdapter`, what it keeps between the polls, its model and its health.
use spark_dashboard.Prelude.{
  ℕ, String, Bool, true, false, Option, none, some, string_eq, if◌then◌else◌,
}
use spark_dashboard.Json.{Json}
use spark_dashboard.Http.{Server, Reply, answered, failed, body_of}
use spark_dashboard.Warmup.{WarmupTracker}
use spark_dashboard.Rates.{CounterRate}
use spark_dashboard.Engine.Types.{
  EngineStatus, error, ModelMetadataError, auth_required, unavailable, ModelResolution,
  MetricsError,
}
use spark_dashboard.Engine.Metrics.{
  GroupSet, throughput, active_requests, speculative_decoding, itl_mean,
}
use spark_dashboard.LlamaCpp.Answers.{
  Role, single_model, router, MetricsAnswer, on, needs_model, MetricsAccess, is_off_access,
  is_refused_access, latched, PropsAnswer, facts, props_refused, props_failed, ModelsAnswer, model,
  router_list, models_failed, resolution, health_status, classify_props_answer,
  classify_models_answer,
}

pub record Learned : Type 0 where
  pub role : Option Role
  pub slots_endpoint : Option Bool
  pub drafter : Option Bool

pub record LlamaCppAdapter (F : Type 0) : Type 0 where
  pub served_model : Option String
  pub gen_rate : CounterRate F
  pub prompt_rate : CounterRate F
  pub warmup : WarmupTracker F
  pub generated : Option F
  pub prev_spec : Option (F × F)
  pub learned : Learned
  pub metrics_access : MetricsAccess

abbrev pub is_router : Option Role → Bool
is_router (some router) = true
is_router (some single_model) = false
is_router none = false

abbrev pub single_model_groups : GroupSet
single_model_groups throughput = true
single_model_groups active_requests = true
single_model_groups speculative_decoding = true
single_model_groups itl_mean = true
single_model_groups _ = false

-- The role that an answer of `/metrics` shows.
abbrev pub shown_role : MetricsAnswer → Option Role
shown_role on = some single_model
shown_role needs_model = some router
shown_role _ = none

-- The role that an answer of `/models` shows.
abbrev pub listed_role : ModelsAnswer → Option Role
listed_role (model info) = some single_model
listed_role router_list = some router
listed_role (models_failed reason) = none

module _ {F : Type 0} where
  unfoldable pub metric_groups : LlamaCppAdapter F → GroupSet
  metric_groups a group = if is_router a.learned.role then false else single_model_groups group

  unfoldable pub metrics_off : LlamaCppAdapter F → Bool
  metrics_off a = is_off_access a.metrics_access

  unfoldable pub metrics_error : LlamaCppAdapter F → Option MetricsError
  metrics_error a =
      if is_refused_access a.metrics_access then some MetricsError.auth_required else none

  unfoldable pub learn_role : Option Role → LlamaCppAdapter F → LlamaCppAdapter F
  learn_role none a = a
  learn_role (some role) a = record a { learned = record a.learned { role = some role } }

  -- The metrics access by the role as it was, and then the role.
  unfoldable pub latch : MetricsAnswer → LlamaCppAdapter F → LlamaCppAdapter F
  unfolding latched learn_role
  latch answer a =
      learn_role (shown_role answer)
        (record a { metrics_access = latched answer a.metrics_access a.learned.role })

  -- `/props`, when its facts are learned.
  unfoldable pub learn_facts : PropsAnswer → LlamaCppAdapter F → LlamaCppAdapter F
  learn_facts (facts x) a = record a {
    learned = record a.learned { role = some x.role; slots_endpoint = some x.slots_endpoint };
  }
  learn_facts props_refused a = a
  learn_facts props_failed a = a

  unfoldable pub fallback : LlamaCppAdapter F → ModelMetadataError → ModelResolution
  unfolding resolution
  fallback a reason = resolution (models_failed reason) a.served_model

abbrev pub is_props_refused : PropsAnswer → Bool
is_props_refused props_refused = true
is_props_refused _ = false

module _ (parse_json : String → Option Json) (format_tenths : ℕ → ℕ → String) where
  abbrev pub props_of : Reply → PropsAnswer
  props_of (answered r) = classify_props_answer parse_json r.status (body_of r)
  props_of (failed timeout message) = props_failed

  abbrev pub models_of : Reply → ModelsAnswer
  models_of (answered r) = classify_models_answer parse_json format_tenths r.status (body_of r)
  models_of (failed timeout message) = models_failed unavailable

  unfoldable pub health_check : (ℕ → String) → Server → EngineStatus
  unfolding health_status
  health_check reason server = elim (server "/health") [
    | answered r ↦ health_status parse_json reason r.status (body_of r)
    | failed timeout message ↦ error message
  ]

  unfoldable pub get_model_info :
      {F : Type 0} → Server → LlamaCppAdapter F → ModelResolution × LlamaCppAdapter F
  unfolding learn_facts fallback learn_role resolution
  get_model_info server a =
      let props = props_of (server "/props") in
      let informed = learn_facts props a in
      let models = models_of (server "/models") in
      if is_props_refused props
      then (fallback a auth_required, a)
      else if is_router informed.learned.role
      then (record { model = none; metadata_error = none }, informed)
      else (resolution models a.served_model, learn_role (listed_role models) informed)
