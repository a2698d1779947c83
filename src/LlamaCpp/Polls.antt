-- ===== src/LlamaCpp/Polls.antt =====
-- engines/llamacpp.rs: `get_metrics`, a scrape of a llama-server.
use mathlib.Core.Option
use spark_dashboard.Prelude.{
  ℕ, String, Bool, true, false, ◌&&◌, Option, none, some, List, bind_some, or_else, or_default,
  lookup, string_eq, if◌then◌else◌,
}
use spark_dashboard.Float.{F64}
use spark_dashboard.Json.{Json}
use spark_dashboard.Http.{Server, Reply, answered, failed, body_of, is_success}
use spark_dashboard.Prometheus.{ParsedMetrics, Sample, gauge_sum}
use spark_dashboard.Prometheus.Exposition.{parse_prometheus_text}
use spark_dashboard.Warmup.{WarmupTracker, WarmupOutput}
use spark_dashboard.Warmup
use spark_dashboard.Rates.{CounterRate, fresh, spec_live_acceptance_rate}
use spark_dashboard.Rates
use spark_dashboard.Histogram.{Constants}
use spark_dashboard.Engine.Metrics.{EngineMetrics}
use spark_dashboard.LlamaCpp.Answers.{
  MetricsAnswer, is_on, open_access, metrics_answer, Slots, parse_slots,
}
use spark_dashboard.LlamaCpp.Metrics.{
  SpecCounters, spec_counters, is_llamacpp_scrape, engine_metrics, is_true,
}
use spark_dashboard.LlamaCpp.Adapter.{LlamaCppAdapter, latch}

module _ (parse_json : String → Option Json) where
  -- `/slots`, whose answer comes in time with a status of success.
  abbrev pub slots_of : Reply → Option Slots
  slots_of (answered r) = if is_success r.status then parse_slots parse_json (body_of r) else none
  slots_of (failed timeout message) = none

  -- The floats, the clock, and what the crate `prometheus_parse` reads of a text.
  module _ {F : Type 0} (f : F64 F) (seconds : ℕ → F) (k : Constants f)
      (scrape : String → Option (List (Sample F))) where
    unfoldable pub new : Option String → LlamaCppAdapter F
    new served_model = record {
      served_model = served_model;
      gen_rate = fresh f seconds;
      prompt_rate = fresh f seconds;
      warmup = Warmup.new 0 "llamacpp_tokens_predicted_total";
      generated = none;
      prev_spec = none;
      learned = record { role = none; slots_endpoint = none; drafter = none };
      metrics_access = open_access;
    }

    unfoldable pub parse_llamacpp : String → Option (ParsedMetrics F)
    parse_llamacpp body =
        bind_some (parse_prometheus_text f scrape body)
          (λ parsed. if is_llamacpp_scrape parsed then some parsed else none)

    abbrev pub is_processing : Option F → Bool
    is_processing none = false
    is_processing (some n) = f.lt f.zero n

    unfoldable pub should_read_slots : Option F → Option Bool → Bool
    should_read_slots processing slots_endpoint = is_processing processing && is_true slots_endpoint

    abbrev pub at_least : F → Option F → F
    at_least now none = now
    at_least now (some prev) = f.max now prev

    unfoldable pub live_generated : Option F → Option ℕ → Option F → Option F
    live_generated none in_flight prev = none
    live_generated (some counted) in_flight prev =
        some (at_least (f.add counted (f.of_ℕ (or_default 0 in_flight))) prev)

    -- The resets when the warmup has just ended.
    abbrev pub restarted : Bool → LlamaCppAdapter F → LlamaCppAdapter F
    restarted false a = a
    restarted true a = record a {
      gen_rate = fresh f seconds;
      prompt_rate = fresh f seconds;
      generated = none;
      prev_spec = none;
    }

    -- What the slots say of the drafter.
    abbrev pub learn_drafter : Option Slots → LlamaCppAdapter F → LlamaCppAdapter F
    learn_drafter none a = a
    learn_drafter (some slots) a = record a {
      learned = record a.learned { drafter = some slots.speculative };
    }

    abbrev pub spec_pair : Option (SpecCounters F) → Option (F × F)
    spec_pair none = none
    spec_pair (some c) = some (c.accepted, c.draft)

    -- A scrape that was read, with the slots that were asked for at the moment `now`.
    unfoldable pub observe_scrape :
        ParsedMetrics F → Option Slots → ℕ → LlamaCppAdapter F → EngineMetrics F × LlamaCppAdapter F
    observe_scrape raw slots now a0 =
        let warmup_out = Warmup.observe f a0.warmup raw in
        let a =
          learn_drafter slots
            (restarted warmup_out.0.just_transitioned (record a0 { warmup = warmup_out.1 })) in
        let generated =
          live_generated (lookup "llamacpp_tokens_predicted_total" raw.counters)
            (Option.map (λ s. s.decoded_in_flight) slots) a.generated in
        let gen = Rates.observe f seconds a.gen_rate generated now in
        let prompt =
          Rates.observe f seconds a.prompt_rate (lookup "llamacpp_prompt_tokens_total" raw.counters)
            now in
        let spec = spec_pair (spec_counters raw) in
        let metrics =
          engine_metrics f seconds k warmup_out.0.adjusted raw
            (record {
              tokens_per_sec = gen.0.0;
              prompt_tokens_per_sec = prompt.0.0;
              avg_tokens_per_sec = gen.0.1;
              avg_prompt_tokens_per_sec = prompt.0.1;
            })
            warmup_out.0.warming_up
            (record {
              drafter = a.learned.drafter;
              live_rate = spec_live_acceptance_rate f seconds a.prev_spec spec;
            }) in
        (
          metrics,
          record a {
            gen_rate = gen.1;
            prompt_rate = prompt.1;
            generated = or_else generated a.generated;
            prev_spec = spec;
          },
        )

    abbrev pub asked_slots : Server → ParsedMetrics F → LlamaCppAdapter F → Option Slots
    asked_slots server raw a =
        if should_read_slots (gauge_sum f raw "llamacpp_requests_processing")
          a.learned.slots_endpoint
        then slots_of (server "/slots")
        else none

    abbrev pub observe_body :
        Server
        → Option (ParsedMetrics F)
        → ℕ
        → LlamaCppAdapter F
        → Option (EngineMetrics F) × LlamaCppAdapter F
    observe_body server none now a = (none, a)
    observe_body server (some raw) now a =
        let observed = observe_scrape raw (asked_slots server raw a) now a in
        (some observed.0, observed.1)

    abbrev pub observe_answer :
        Server
        → MetricsAnswer
        → String
        → ℕ
        → LlamaCppAdapter F
        → Option (EngineMetrics F) × LlamaCppAdapter F
    observe_answer server answer body now a =
        if is_on answer then observe_body server (parse_llamacpp body) now a else (none, a)

    unfoldable pub get_metrics :
        Server → ℕ → LlamaCppAdapter F → Option (EngineMetrics F) × LlamaCppAdapter F
    get_metrics server now a = elim (server "/metrics") [
      | failed timeout message ↦ (none, a)
      | answered r ↦
          let answer = metrics_answer r.status in
          observe_answer server answer (body_of r) now (latch answer a)
    ]
