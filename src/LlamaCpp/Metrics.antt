-- ===== src/LlamaCpp/Metrics.antt =====
-- engines/llamacpp.rs: the metrics of one scrape.
use mathlib.Core.Option
use spark_dashboard.Prelude.{
  ℕ, String, Bool, false, not, ◌||◌, Option, none, some, bind_some, keep_if, lookup, string_eq,
  if◌then◌else◌, any,
}
use spark_dashboard.Text.{starts_with}
use spark_dashboard.Float.{F64}
use spark_dashboard.Prometheus.{ParsedMetrics, gauge_sum}
use spark_dashboard.Engine.Metrics.{EngineMetrics}
use spark_dashboard.Histogram.{Constants, mean_ms}
use spark_dashboard.Rates.{spec_acceptance_rate, spec_mean_acceptance_length}

pub record SpecCounters (F : Type 0) : Type 0 where
  pub draft : F
  pub accepted : F
  pub drafts : F

pub record RateInputs (F : Type 0) : Type 0 where
  pub tokens_per_sec : Option F
  pub prompt_tokens_per_sec : Option F
  pub avg_tokens_per_sec : Option F
  pub avg_prompt_tokens_per_sec : Option F

pub record SpecInputs (F : Type 0) : Type 0 where
  pub drafter : Option Bool
  pub live_rate : Option F

module _ {F : Type 0} where
  unfoldable pub spec_counters : ParsedMetrics F → Option (SpecCounters F)
  spec_counters raw =
      bind_some (lookup "llamacpp_spec_decode_num_draft_tokens_total" raw.counters) (λ draft.
        bind_some (lookup "llamacpp_spec_decode_num_accepted_tokens_total" raw.counters)
          (λ accepted.
            bind_some (lookup "llamacpp_spec_decode_num_drafts_total" raw.counters)
              (λ drafts. some (record { draft = draft; accepted = accepted; drafts = drafts }))))

  -- Whether a scrape has a series of llama.cpp.
  unfoldable pub is_llamacpp_scrape : ParsedMetrics F → Bool
  unfolding starts_with
  is_llamacpp_scrape parsed =
      any (λ c. starts_with c.0 "llamacpp_") parsed.counters
      || any (λ g. starts_with g.0 "llamacpp_") parsed.gauges

abbrev pub is_true : Option Bool → Bool
is_true none = false
is_true (some b) = b

module _ {F : Type 0} (f : F64 F) (seconds : ℕ → F) where
  -- `v.max(0.0) as u64`
  abbrev pub count_of : F → ℕ
  count_of v = f.to_u64 (f.max v f.zero)

  abbrev pub lifetime : ParsedMetrics F → String → Option ℕ
  lifetime raw name = Option.map count_of (lookup name raw.counters)

  abbrev pub requests : ParsedMetrics F → String → Option ℕ
  requests parsed name = Option.map count_of (gauge_sum f parsed name)

  abbrev pub is_drafting : SpecInputs F → SpecCounters F → Bool
  is_drafting spec c =
      f.lt f.zero c.draft || f.lt f.zero c.accepted || f.lt f.zero c.drafts || is_true spec.drafter

  -- The counters of speculative decoding, where there is a drafter or anything has been drafted.
  unfoldable pub speculating : ParsedMetrics F → SpecInputs F → Option (SpecCounters F)
  speculating raw spec =
      bind_some (spec_counters raw) (λ c. if is_drafting spec c then some c else none)

  abbrev pub live_of : Option (SpecCounters F) → Option F → Option F
  live_of none rate = none
  live_of (some c) rate = rate

  unfoldable pub engine_metrics :
      Constants f
      → ParsedMetrics F
      → ParsedMetrics F
      → RateInputs F
      → Bool
      → SpecInputs F
      → EngineMetrics F
  engine_metrics k parsed raw rates warming_up spec =
      let drafting = speculating raw spec in
      record {
        tokens_per_sec = keep_if (not warming_up) rates.tokens_per_sec;
        avg_tokens_per_sec = keep_if (not warming_up) rates.avg_tokens_per_sec;
        per_request_tps = none;
        ttft_ms = none;
        active_requests = requests parsed "llamacpp_requests_processing";
        queued_requests = requests parsed "llamacpp_requests_deferred";
        kv_cache_percent = none;
        kv_cache_is_estimated = false;
        total_requests = none;
        e2e_latency_ms = none;
        prompt_tokens_per_sec = keep_if (not warming_up) rates.prompt_tokens_per_sec;
        avg_prompt_tokens_per_sec = keep_if (not warming_up) rates.avg_prompt_tokens_per_sec;
        per_request_prompt_tps = none;
        swapped_requests = none;
        prefix_cache_hit_rate = none;
        queue_time_ms = none;
        inter_token_latency_ms = keep_if (not warming_up) (
            mean_ms f k (lookup "llamacpp_tokens_predicted_seconds_total" parsed.counters)
              (lookup "llamacpp_tokens_predicted_total" parsed.counters));
        preemptions_total = none;
        total_prompt_tokens = lifetime raw "llamacpp_prompt_tokens_total";
        total_generation_tokens = lifetime raw "llamacpp_tokens_predicted_total";
        prefix_cache_queries_total = none;
        avg_batch_size = none;
        ttft_percentiles = none;
        itl_percentiles = none;
        e2e_percentiles = none;
        ttft_goodput_pct = none;
        itl_goodput_pct = none;
        e2e_goodput_pct = none;
        ttft_buckets = none;
        itl_buckets = none;
        e2e_buckets = none;
        tpot_ms = none;
        tpot_percentiles = none;
        tpot_goodput_pct = none;
        tpot_buckets = none;
        spec_decode_draft_tokens_total = Option.map (λ c. count_of c.draft) drafting;
        spec_decode_accepted_tokens_total = Option.map (λ c. count_of c.accepted) drafting;
        spec_decode_drafts_total = Option.map (λ c. count_of c.drafts) drafting;
        spec_decode_acceptance_rate =
            bind_some drafting
              (λ c. spec_acceptance_rate f seconds (some c.accepted) (some c.draft));
        spec_decode_acceptance_rate_live =
            keep_if (not warming_up) (live_of drafting spec.live_rate);
        spec_decode_mean_acceptance_length =
            bind_some drafting
              (λ c. spec_mean_acceptance_length f seconds (some c.accepted) (some c.drafts));
        warming_up = warming_up;
      }
