-- ===== src/Engine/Metrics.antt =====
-- The metric groups and the engine metrics of engines/mod.rs. `F` is the type of the floats.
pub mod Reported
use spark_dashboard.Prelude.{ℕ, Bool, ◌&&◌, Option, List, [], ◌∷◌, any, not, keep_if}

pub data MetricGroup : Type 0 where
  throughput batch_size active_requests request_total preemptions queue_time kv_cache : MetricGroup
  prefix_cache speculative_decoding ttft_mean ttft_percentiles e2e_mean : MetricGroup
  e2e_percentiles itl_mean itl_percentiles tpot_mean tpot_percentiles : MetricGroup

abbrev pub all_groups : List MetricGroup
all_groups =
    throughput ∷ batch_size ∷ active_requests ∷ request_total ∷ preemptions ∷ queue_time ∷ kv_cache
    ∷ prefix_cache ∷ speculative_decoding ∷ ttft_mean ∷ ttft_percentiles ∷ e2e_mean
    ∷ e2e_percentiles ∷ itl_mean ∷ itl_percentiles ∷ tpot_mean ∷ tpot_percentiles ∷ []

-- `BTreeSet<MetricGroup>`, by its `contains`.
abbrev pub GroupSet : Type 0
GroupSet = MetricGroup → Bool

abbrev pub is_empty : GroupSet → Bool
is_empty set = not (any set all_groups)

pub record LatencyPercentiles (F : Type 0) : Type 0 where
  pub p50_ms : Option F
  pub p95_ms : Option F
  pub p99_ms : Option F

pub record HistogramBucket (F : Type 0) : Type 0 where
  pub le_seconds : F
  pub cumulative_count : F

pub record RecentRequest (F : Type 0) : Type 0 where
  pub start_ms : ℕ
  pub end_ms : ℕ
  pub tokens_per_sec : F
  pub ttft_ms : F

pub record EngineMetrics (F : Type 0) : Type 0 where
  pub tokens_per_sec : Option F
  pub avg_tokens_per_sec : Option F
  pub per_request_tps : Option F
  pub ttft_ms : Option F
  pub active_requests : Option ℕ
  pub queued_requests : Option ℕ
  pub kv_cache_percent : Option F
  pub kv_cache_is_estimated : Bool
  pub total_requests : Option ℕ
  pub e2e_latency_ms : Option F
  pub prompt_tokens_per_sec : Option F
  pub avg_prompt_tokens_per_sec : Option F
  pub per_request_prompt_tps : Option F
  pub swapped_requests : Option ℕ
  pub prefix_cache_hit_rate : Option F
  pub queue_time_ms : Option F
  pub inter_token_latency_ms : Option F
  pub preemptions_total : Option ℕ
  pub total_prompt_tokens : Option ℕ
  pub total_generation_tokens : Option ℕ
  pub prefix_cache_queries_total : Option ℕ
  pub avg_batch_size : Option F
  pub ttft_percentiles : Option (LatencyPercentiles F)
  pub itl_percentiles : Option (LatencyPercentiles F)
  pub e2e_percentiles : Option (LatencyPercentiles F)
  pub ttft_goodput_pct : Option F
  pub itl_goodput_pct : Option F
  pub e2e_goodput_pct : Option F
  pub ttft_buckets : Option (List (HistogramBucket F))
  pub itl_buckets : Option (List (HistogramBucket F))
  pub e2e_buckets : Option (List (HistogramBucket F))
  pub tpot_ms : Option F
  pub tpot_percentiles : Option (LatencyPercentiles F)
  pub tpot_goodput_pct : Option F
  pub tpot_buckets : Option (List (HistogramBucket F))
  pub spec_decode_draft_tokens_total : Option ℕ
  pub spec_decode_accepted_tokens_total : Option ℕ
  pub spec_decode_drafts_total : Option ℕ
  pub spec_decode_acceptance_rate : Option F
  pub spec_decode_acceptance_rate_live : Option F
  pub spec_decode_mean_acceptance_length : Option F
  pub warming_up : Bool

-- `EngineMetrics::reported_only`
unfoldable pub reported_only : {F : Type 0} → EngineMetrics F → GroupSet → EngineMetrics F
reported_only m keep = record {
  tokens_per_sec = keep_if (keep throughput) m.tokens_per_sec;
  avg_tokens_per_sec = keep_if (keep throughput) m.avg_tokens_per_sec;
  per_request_tps = keep_if (keep tpot_mean) m.per_request_tps;
  ttft_ms = keep_if (keep ttft_mean) m.ttft_ms;
  active_requests = keep_if (keep active_requests) m.active_requests;
  queued_requests = keep_if (keep active_requests) m.queued_requests;
  kv_cache_percent = keep_if (keep kv_cache) m.kv_cache_percent;
  kv_cache_is_estimated = m.kv_cache_is_estimated && keep kv_cache;
  total_requests = keep_if (keep request_total) m.total_requests;
  e2e_latency_ms = keep_if (keep e2e_mean) m.e2e_latency_ms;
  prompt_tokens_per_sec = keep_if (keep throughput) m.prompt_tokens_per_sec;
  avg_prompt_tokens_per_sec = keep_if (keep throughput) m.avg_prompt_tokens_per_sec;
  per_request_prompt_tps = keep_if (keep ttft_mean) m.per_request_prompt_tps;
  swapped_requests = keep_if (keep preemptions) m.swapped_requests;
  prefix_cache_hit_rate = keep_if (keep prefix_cache) m.prefix_cache_hit_rate;
  queue_time_ms = keep_if (keep queue_time) m.queue_time_ms;
  inter_token_latency_ms = keep_if (keep itl_mean) m.inter_token_latency_ms;
  preemptions_total = keep_if (keep preemptions) m.preemptions_total;
  total_prompt_tokens = keep_if (keep throughput) m.total_prompt_tokens;
  total_generation_tokens = keep_if (keep throughput) m.total_generation_tokens;
  prefix_cache_queries_total = keep_if (keep prefix_cache) m.prefix_cache_queries_total;
  avg_batch_size = keep_if (keep batch_size) m.avg_batch_size;
  ttft_percentiles = keep_if (keep ttft_percentiles) m.ttft_percentiles;
  itl_percentiles = keep_if (keep itl_percentiles) m.itl_percentiles;
  e2e_percentiles = keep_if (keep e2e_percentiles) m.e2e_percentiles;
  ttft_goodput_pct = keep_if (keep ttft_percentiles) m.ttft_goodput_pct;
  itl_goodput_pct = keep_if (keep itl_percentiles) m.itl_goodput_pct;
  e2e_goodput_pct = keep_if (keep e2e_percentiles) m.e2e_goodput_pct;
  ttft_buckets = keep_if (keep ttft_percentiles) m.ttft_buckets;
  itl_buckets = keep_if (keep itl_percentiles) m.itl_buckets;
  e2e_buckets = keep_if (keep e2e_percentiles) m.e2e_buckets;
  tpot_ms = keep_if (keep tpot_mean) m.tpot_ms;
  tpot_percentiles = keep_if (keep tpot_percentiles) m.tpot_percentiles;
  tpot_goodput_pct = keep_if (keep tpot_percentiles) m.tpot_goodput_pct;
  tpot_buckets = keep_if (keep tpot_percentiles) m.tpot_buckets;
  spec_decode_draft_tokens_total =
      keep_if (keep speculative_decoding) m.spec_decode_draft_tokens_total;
  spec_decode_accepted_tokens_total =
      keep_if (keep speculative_decoding) m.spec_decode_accepted_tokens_total;
  spec_decode_drafts_total = keep_if (keep speculative_decoding) m.spec_decode_drafts_total;
  spec_decode_acceptance_rate = keep_if (keep speculative_decoding) m.spec_decode_acceptance_rate;
  spec_decode_acceptance_rate_live =
      keep_if (keep speculative_decoding) m.spec_decode_acceptance_rate_live;
  spec_decode_mean_acceptance_length =
      keep_if (keep speculative_decoding) m.spec_decode_mean_acceptance_length;
  warming_up = m.warming_up;
}
