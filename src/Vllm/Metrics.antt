-- ===== src/Vllm/Metrics.antt =====
-- engines/vllm.rs: the metrics of one scrape.
use spark_dashboard.Prelude.{
  ℕ, String, Bool, false, not, ◌&&◌, Option, none, some, bind_some, keep_if, lookup, or_else,
  string_eq, is_some, if◌then◌else◌,
}
use spark_dashboard.Text.{append}
use spark_dashboard.Float.{F64}
use spark_dashboard.Prometheus.{ParsedMetrics, gauge_sum, gauge_mean}
use spark_dashboard.Engine.Metrics.{EngineMetrics}
use spark_dashboard.Histogram.{Constants, mean_ms, percentiles_ms, goodput_pct, wire_buckets}
use spark_dashboard.Rates.{spec_acceptance_rate, spec_mean_acceptance_length}
use spark_dashboard.Scraping.{RateInputs, counter, per, cast, clamped, percent, mean_of_histogram}

-- The counters of speculative decoding that the scrape has.
pub record SpecCounters (F : Type 0) : Type 0 where
  pub draft : Option F
  pub accepted : Option F
  pub drafts : Option F

module _ {F : Type 0} where
  -- `spec_counter`: the name with `_total` before the bare one
  abbrev pub spec_counter : ParsedMetrics F → String → Option F
  spec_counter raw name =
      or_else (counter raw (append "vllm_spec_decode_" (append name "_total")))
        (counter raw (append "vllm_spec_decode_" name))

  unfoldable pub spec_counters : ParsedMetrics F → SpecCounters F
  unfolding append
  spec_counters raw = record {
    draft = spec_counter raw "num_draft_tokens";
    accepted = spec_counter raw "num_accepted_tokens";
    drafts = spec_counter raw "num_drafts";
  }

  -- A counter of vLLM v1, and else that of v0.6.
  abbrev pub tpot_counter : ParsedMetrics F → String → Option F
  tpot_counter parsed suffix =
      or_else (counter parsed (append "vllm_request_time_per_output_token_seconds" suffix))
        (counter parsed (append "vllm_time_per_output_token_seconds" suffix))

  -- The histogram that is there, if any.
  unfoldable pub tpot_hist : ParsedMetrics F → Option String
  tpot_hist parsed =
      if is_some (lookup "vllm_request_time_per_output_token_seconds" parsed.histograms)
      then some "vllm_request_time_per_output_token_seconds"
      else if is_some (lookup "vllm_time_per_output_token_seconds" parsed.histograms)
      then some "vllm_time_per_output_token_seconds"
      else none

module _ {F : Type 0} (f : F64 F) (seconds : ℕ → F) (k : Constants f) where
  -- `1 / avg_TPOT`
  abbrev pub tps_of : Option F → Option F → Option F
  tps_of (some s) (some c) = if f.lt f.zero c && f.lt f.zero s then some (f.div c s) else none
  tps_of _ _ = none

  -- The metrics, of the scrape less its baseline and as it is, with the rates and the live acceptance
  -- rate.
  unfoldable pub engine_metrics :
      ParsedMetrics F → ParsedMetrics F → RateInputs F → Bool → Option F → EngineMetrics F
  unfolding append spec_counters tpot_hist
  engine_metrics parsed raw rates warming_up live =
      let steady = not warming_up in
      let spec = spec_counters raw in
      let ttft : String = "vllm_time_to_first_token_seconds" in
      let itl : String = "vllm_inter_token_latency_seconds" in
      let e2e : String = "vllm_e2e_request_latency_seconds" in
      record {
        tokens_per_sec = keep_if steady rates.tokens_per_sec;
        avg_tokens_per_sec = keep_if steady rates.avg_tokens_per_sec;
        per_request_tps =
            keep_if steady (tps_of (tpot_counter parsed "_sum") (tpot_counter parsed "_count"));
        ttft_ms = keep_if steady (mean_of_histogram f k parsed ttft);
        active_requests = cast f (gauge_sum f parsed "vllm_num_requests_running");
        queued_requests = cast f (gauge_sum f parsed "vllm_num_requests_waiting");
        kv_cache_percent = percent f k (
            or_else (gauge_mean f parsed "vllm_kv_cache_usage_perc")
              (gauge_mean f parsed "vllm_gpu_cache_usage_perc"));
        kv_cache_is_estimated = false;
        total_requests = cast f (counter raw "vllm_time_to_first_token_seconds_count");
        e2e_latency_ms = keep_if steady (mean_of_histogram f k parsed e2e);
        prompt_tokens_per_sec = keep_if steady rates.prompt_tokens_per_sec;
        avg_prompt_tokens_per_sec = keep_if steady rates.avg_prompt_tokens_per_sec;
        per_request_prompt_tps = keep_if steady (
            per f (counter parsed "vllm_prompt_tokens_total")
              (counter parsed "vllm_time_to_first_token_seconds_sum"));
        swapped_requests = cast f (gauge_sum f parsed "vllm_num_requests_swapped");
        prefix_cache_hit_rate = percent f k (
            per f (counter parsed "vllm_prefix_cache_hits_total")
              (counter parsed "vllm_prefix_cache_queries_total"));
        queue_time_ms =
            keep_if steady (mean_of_histogram f k parsed "vllm_request_queue_time_seconds");
        inter_token_latency_ms = keep_if steady (mean_of_histogram f k parsed itl);
        preemptions_total = cast f (counter raw "vllm_num_preemptions_total");
        total_prompt_tokens = cast f (counter parsed "vllm_prompt_tokens_total");
        total_generation_tokens = cast f (counter parsed "vllm_generation_tokens_total");
        prefix_cache_queries_total = cast f (counter parsed "vllm_prefix_cache_queries_total");
        avg_batch_size = keep_if steady (
            per f (counter parsed "vllm_iteration_tokens_total_sum")
              (counter parsed "vllm_iteration_tokens_total_count"));
        ttft_percentiles = keep_if steady (percentiles_ms f k parsed ttft);
        itl_percentiles = keep_if steady (percentiles_ms f k parsed itl);
        e2e_percentiles = keep_if steady (percentiles_ms f k parsed e2e);
        ttft_goodput_pct = keep_if steady (goodput_pct f k parsed ttft (f.of_ℕ 500));
        itl_goodput_pct = keep_if steady (goodput_pct f k parsed itl (f.of_ℕ 50));
        e2e_goodput_pct = keep_if steady (goodput_pct f k parsed e2e (f.of_ℕ 5000));
        ttft_buckets = keep_if steady (wire_buckets f parsed ttft);
        itl_buckets = keep_if steady (wire_buckets f parsed itl);
        e2e_buckets = keep_if steady (wire_buckets f parsed e2e);
        tpot_ms =
            keep_if steady
              (mean_ms f k (tpot_counter parsed "_sum") (tpot_counter parsed "_count"));
        tpot_percentiles =
            keep_if steady (bind_some (tpot_hist parsed) (percentiles_ms f k parsed));
        tpot_goodput_pct =
            keep_if steady
              (bind_some (tpot_hist parsed) (λ m. goodput_pct f k parsed m (f.of_ℕ 50)));
        tpot_buckets = keep_if steady (bind_some (tpot_hist parsed) (wire_buckets f parsed));
        spec_decode_draft_tokens_total = clamped f spec.draft;
        spec_decode_accepted_tokens_total = clamped f spec.accepted;
        spec_decode_drafts_total = clamped f spec.drafts;
        spec_decode_acceptance_rate = spec_acceptance_rate f seconds spec.accepted spec.draft;
        spec_decode_acceptance_rate_live = keep_if steady live;
        spec_decode_mean_acceptance_length =
            spec_mean_acceptance_length f seconds spec.accepted spec.drafts;
        warming_up = warming_up;
      }
