-- ===== src/Vllm/Adapter.antt =====
-- engines/vllm.rs: `VllmAdapter`, what it keeps between the polls and what it answers.
use spark_dashboard.Prelude.{ℕ, String, true, Option, none, some, List, bind_some, if◌then◌else◌}
use spark_dashboard.Float.{F64}
use spark_dashboard.Http.{Server, answered, failed, health}
use spark_dashboard.Prometheus.{ParsedMetrics, Sample}
use spark_dashboard.Prometheus.Exposition.{parse_prometheus_text}
use spark_dashboard.Warmup.{WarmupTracker}
use spark_dashboard.Warmup
use spark_dashboard.Rates.{spec_live_acceptance_rate}
use spark_dashboard.Histogram.{Constants}
use spark_dashboard.Engine.Types.{EngineStatus, ModelResolution}
use spark_dashboard.Engine.Metrics.{GroupSet, EngineMetrics}
use spark_dashboard.Models.{ModelResolver, HfModelResponse, OpenAiModelsResponse, resolve}
use spark_dashboard.Models
use spark_dashboard.Scraping.{
  TokenRates, fresh_rates, reset_rates, observe_rates, counter, warmup_skip_from_env,
}
use spark_dashboard.Vllm.Metrics.{spec_counters, engine_metrics}

pub record VllmAdapter (F : Type 0) : Type 0 where
  pub model : ModelResolver
  pub rates : TokenRates F
  pub prev_spec_decode : Option (F × F)
  pub warmup : WarmupTracker F

-- `MetricGroup::all`
abbrev pub metric_groups : GroupSet
metric_groups group = true

unfoldable pub health_check : (ℕ → String) → Server → EngineStatus
unfolding health
health_check reason server = health reason server "/health"

unfoldable pub get_model_info :
    {F : Type 0}
    → (ℕ → ℕ → String)
    → (String → Option HfModelResponse)
    → (String → Option OpenAiModelsResponse)
    → Server
    → Option Server
    → ℕ
    → ℕ
    → VllmAdapter F
    → ModelResolution × VllmAdapter F
unfolding resolve
get_model_info format_tenths read_hf read_models server hub now at a =
    let resolved = resolve format_tenths read_hf read_models server hub now at a.model in
    (resolved.0, record a { model = resolved.1 })

-- `zip`
abbrev pub zip {ℓ} : {A : Type ℓ} → Option A → Option A → Option (A × A)
zip (some a) (some b) = some (a, b)
zip _ _ = none

-- The floats, the clock, and what the crate `prometheus_parse` reads of a text.
module _ {F : Type 0} (f : F64 F) (seconds : ℕ → F) (k : Constants f)
    (scrape : String → Option (List (Sample F))) where
  unfoldable pub new : Option String → Option String → VllmAdapter F
  unfolding warmup_skip_from_env
  new served_model variable = record {
    model = Models.new served_model;
    rates = fresh_rates f seconds;
    prev_spec_decode = none;
    warmup = Warmup.new (warmup_skip_from_env variable) "vllm_time_to_first_token_seconds_count";
  }

  -- A scrape that was read, at the moment `now`.
  unfoldable pub observe_scrape :
      ParsedMetrics F → ℕ → VllmAdapter F → EngineMetrics F × VllmAdapter F
  unfolding observe_rates
  observe_scrape raw now a =
      let out = Warmup.observe f a.warmup raw in
      let parsed = out.0.adjusted in
      let rates =
        observe_rates f seconds (reset_rates f seconds out.0.just_transitioned a.rates)
          (counter parsed "vllm_generation_tokens_total")
          (counter parsed "vllm_prompt_tokens_total") now in
      let spec = spec_counters raw in
      let pair = zip spec.accepted spec.draft in
      let prev = if out.0.just_transitioned then none else a.prev_spec_decode in
      (
        engine_metrics f seconds k parsed raw rates.0 out.0.warming_up
            (spec_live_acceptance_rate f seconds prev pair),
        record a { rates = rates.1; prev_spec_decode = pair; warmup = out.1 },
      )

  abbrev pub observe_body :
      Option (ParsedMetrics F) → ℕ → VllmAdapter F → Option (EngineMetrics F) × VllmAdapter F
  observe_body none now a = (none, a)
  observe_body (some raw) now a = let seen = observe_scrape raw now a in (some seen.0, seen.1)

  -- The status of the answer is not looked at.
  unfoldable pub get_metrics : Server → ℕ → VllmAdapter F → Option (EngineMetrics F) × VllmAdapter F
  get_metrics server now a = elim (server "/metrics") [
    | failed timeout message ↦ (none, a)
    | answered r ↦ observe_body (bind_some r.body (parse_prometheus_text f scrape)) now a
  ]
