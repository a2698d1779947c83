-- ===== src/Sglang/Adapter.antt =====
-- engines/sglang.rs: `SglangAdapter`, what it keeps between the polls and what it answers.
use spark_dashboard.Prelude.{
  ℕ, ◌-◌, ◌*◌, String, Bool, true, false, not, ◌||◌, Option, none, some, List, bind_some,
  or_default, ltb, ◌==◌, nat_eq, string_eq, if◌then◌else◌,
}
use spark_dashboard.Text.{is_empty_text}
use spark_dashboard.Float.{F64}
use spark_dashboard.Json.{Json, get, null, text}
use spark_dashboard.Http.{Server, Reply, answered, failed, HttpResponse, is_success, health_or}
use spark_dashboard.Prometheus.{ParsedMetrics, Sample}
use spark_dashboard.Warmup.{WarmupTracker}
use spark_dashboard.Warmup
use spark_dashboard.Histogram.{Constants}
use spark_dashboard.Engine.Types.{EngineStatus, ModelResolution}
use spark_dashboard.Engine.Metrics.{
  GroupSet, EngineMetrics, batch_size, preemptions, tpot_mean, tpot_percentiles,
}
use spark_dashboard.Models.{ModelResolver, HfModelResponse, OpenAiModelsResponse, resolve}
use spark_dashboard.Models
use spark_dashboard.Scraping.{
  TokenRates, fresh_rates, reset_rates, observe_rates, counter, warmup_skip_from_env,
}
use spark_dashboard.Sglang.Metrics.{parse_sglang, has_sglang_series, engine_metrics}

pub record DrafterLookup : Type 0 where
  pub configured : Option Bool
  pub last_attempt : Option ℕ

pub record SglangAdapter (F : Type 0) : Type 0 where
  pub model : ModelResolver
  pub rates : TokenRates F
  pub warmup : WarmupTracker F
  pub drafter : DrafterLookup
  pub metrics_off : Bool

-- All groups but four.
abbrev pub metric_groups : GroupSet
metric_groups tpot_mean = false
metric_groups tpot_percentiles = false
metric_groups batch_size = false
metric_groups preemptions = false
metric_groups _ = true

-- The value of `speculative_algorithm`; `to_lowercase` is that of ASCII.
unfoldable pub drafter_named : (String → String) → Json → Option Bool
drafter_named to_lowercase null = some false
drafter_named to_lowercase (text name) =
    some (not (is_empty_text name || to_lowercase name == "none"))
drafter_named to_lowercase _ = none

unfoldable pub drafter_in_server_info : (String → String) → Json → Option Bool
unfolding get drafter_named
drafter_in_server_info to_lowercase info =
    bind_some (get info "speculative_algorithm") (drafter_named to_lowercase)

-- `DRAFTER_LOOKUP_RETRY`, in nanoseconds
abbrev pub drafter_lookup_retry : ℕ
drafter_lookup_retry = 60 * 1000000000

abbrev pub is_recent : Option ℕ → ℕ → Bool
is_recent none now = false
is_recent (some at) now = ltb (now - at) drafter_lookup_retry

unfoldable pub health_check : (ℕ → String) → Server → EngineStatus
unfolding health_or
health_check reason server = health_or reason server "/ready" "/model_info"

unfoldable pub metrics_off_signal : Bool → ℕ → Option Bool
metrics_off_signal true code = some false
metrics_off_signal false code = if code == 404 then some true else none

module _ (parse_json : String → Option Json) (to_lowercase : String → String) where
  -- What an answer of `/server_info` says of the drafter.
  abbrev pub server_info : Reply → Option Bool
  server_info (answered r) =
      if is_success r.status
      then bind_some (bind_some r.body parse_json) (drafter_in_server_info to_lowercase)
      else none
  server_info (failed timeout message) = none

  -- The attempt is noted before the server is asked; the clock is read at `now` and at `at`.
  unfoldable pub drafter_configured : Server → ℕ → ℕ → DrafterLookup → Option Bool × DrafterLookup
  drafter_configured server now at lookup = elim lookup.configured [
    | some configured ↦ (some configured, lookup)
    | none ↦ if is_recent lookup.last_attempt now then (none, lookup) else (
      server_info (server "/server_info"),
      record { configured = server_info (server "/server_info"); last_attempt = some at },
    )
  ]

  -- The floats, the clock, and what the crate `prometheus_parse` reads of a text.
  module _ {F : Type 0} (f : F64 F) (seconds : ℕ → F) (k : Constants f)
      (scrape : String → Option (List (Sample F))) where
    -- The latch of a scrape that was answered.
    abbrev pub latch : HttpResponse → SglangAdapter F → SglangAdapter F
    latch r a = record a {
      metrics_off = or_default a.metrics_off (metrics_off_signal (is_success r.status) r.status);
    }

    -- A scrape that was read. The clock is read at `now`, and for the drafter after it at `asked` and
    -- at `at`.
    unfoldable pub observe_scrape :
        Server → ParsedMetrics F → ℕ → ℕ → ℕ → SglangAdapter F → EngineMetrics F × SglangAdapter F
    unfolding observe_rates
    observe_scrape server raw now asked at a =
        let out = Warmup.observe f a.warmup raw in
        let parsed = out.0.adjusted in
        let rates =
          observe_rates f seconds (reset_rates f seconds out.0.just_transitioned a.rates)
            (counter parsed "sglang_generation_tokens_total")
            (counter parsed "sglang_prompt_tokens_total") now in
        let drafter = drafter_configured server asked at a.drafter in
        (
          engine_metrics f k parsed raw rates.0 out.0.warming_up drafter.0,
          record a { rates = rates.1; warmup = out.1; drafter = drafter.1 },
        )

    -- What the body of a success shows of SGLang.
    abbrev pub sglang_series : ParsedMetrics F → Option (ParsedMetrics F)
    sglang_series parsed = if has_sglang_series parsed then some parsed else none

    abbrev pub read_scrape : Bool → String → Option (ParsedMetrics F)
    read_scrape success body =
        if success then bind_some (parse_sglang f scrape body) sglang_series else none

    abbrev pub observe_read :
        Server
        → Option (ParsedMetrics F)
        → ℕ
        → ℕ
        → ℕ
        → SglangAdapter F
        → Option (EngineMetrics F) × SglangAdapter F
    observe_read server none now asked at a = (none, a)
    observe_read server (some raw) now asked at a =
        let seen = observe_scrape server raw now asked at a in (some seen.0, seen.1)

    abbrev pub observe_body :
        Server
        → HttpResponse
        → Option String
        → ℕ
        → ℕ
        → ℕ
        → SglangAdapter F
        → Option (EngineMetrics F) × SglangAdapter F
    observe_body server r none now asked at a = (none, a)
    observe_body server r (some body) now asked at a =
        observe_read server (read_scrape (is_success r.status) body) now asked at (latch r a)

    unfoldable pub get_metrics :
        Server → ℕ → ℕ → ℕ → SglangAdapter F → Option (EngineMetrics F) × SglangAdapter F
    get_metrics server now asked at a = elim (server "/metrics") [
      | failed timeout message ↦ (none, a)
      | answered r ↦ observe_body server r r.body now asked at a
    ]

module _ {F : Type 0} where
  unfoldable pub get_model_info :
      (ℕ → ℕ → String)
      → (String → Option HfModelResponse)
      → (String → Option OpenAiModelsResponse)
      → Server
      → Option Server
      → ℕ
      → ℕ
      → SglangAdapter F
      → ModelResolution × SglangAdapter F
  unfolding resolve
  get_model_info format_tenths read_hf read_models server hub now at a =
      let resolved = resolve format_tenths read_hf read_models server hub now at a.model in
      (resolved.0, record a { model = resolved.1 })

  unfoldable pub new :
      (f : F64 F) (seconds : ℕ → F) → Option String → Option String → SglangAdapter F
  unfolding warmup_skip_from_env
  new f seconds served_model variable = record {
    model = Models.new served_model;
    rates = fresh_rates f seconds;
    warmup = Warmup.new (warmup_skip_from_env variable) "sglang_time_to_first_token_seconds_count";
    drafter = record { configured = none; last_attempt = none };
    metrics_off = false;
  }
