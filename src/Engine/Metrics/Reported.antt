-- ===== src/Engine/Metrics/Reported.antt =====
-- What `reported_only` keeps and what it blanks, group by group.
use spark_dashboard.Prelude.{
  ℕ, ◌≡◌, Bool, false, ◌&&◌, Option, none, List, [], ◌∷◌, map, arith, keep_if, if◌then◌else◌,
}
use spark_dashboard.Engine.Metrics.{
  MetricGroup, throughput, batch_size, active_requests, request_total, preemptions, queue_time,
  kv_cache, prefix_cache, speculative_decoding, ttft_mean, ttft_percentiles, e2e_mean,
  e2e_percentiles, itl_mean, itl_percentiles, tpot_mean, tpot_percentiles, GroupSet,
  LatencyPercentiles, HistogramBucket, EngineMetrics, reported_only,
}

-- A field of the metrics, whatever its type.
pub data Cell (F : Type 0) : Type 0 where
  float : Option F → Cell F
  count : Option ℕ → Cell F
  flag : Bool → Cell F
  percentiles : Option (LatencyPercentiles F) → Cell F
  buckets : Option (List (HistogramBucket F)) → Cell F

-- The fields of each group, as the comments on `MetricGroup` list them.
abbrev pub cells : {F : Type 0} → MetricGroup → EngineMetrics F → List (Cell F)
cells throughput m =
    float m.tokens_per_sec
    ∷ float m.avg_tokens_per_sec
    ∷ float m.prompt_tokens_per_sec
    ∷ float m.avg_prompt_tokens_per_sec
    ∷ count m.total_prompt_tokens
    ∷ count m.total_generation_tokens
    ∷ []
cells batch_size m = float m.avg_batch_size ∷ []
cells active_requests m = count m.active_requests ∷ count m.queued_requests ∷ []
cells request_total m = count m.total_requests ∷ []
cells preemptions m = count m.swapped_requests ∷ count m.preemptions_total ∷ []
cells queue_time m = float m.queue_time_ms ∷ []
cells kv_cache m = float m.kv_cache_percent ∷ flag m.kv_cache_is_estimated ∷ []
cells prefix_cache m = float m.prefix_cache_hit_rate ∷ count m.prefix_cache_queries_total ∷ []
cells speculative_decoding m =
    count m.spec_decode_draft_tokens_total
    ∷ count m.spec_decode_accepted_tokens_total
    ∷ count m.spec_decode_drafts_total
    ∷ float m.spec_decode_acceptance_rate
    ∷ float m.spec_decode_acceptance_rate_live
    ∷ float m.spec_decode_mean_acceptance_length
    ∷ []
cells ttft_mean m = float m.ttft_ms ∷ float m.per_request_prompt_tps ∷ []
cells ttft_percentiles m =
    percentiles m.ttft_percentiles ∷ float m.ttft_goodput_pct ∷ buckets m.ttft_buckets ∷ []
cells e2e_mean m = float m.e2e_latency_ms ∷ []
cells e2e_percentiles m =
    percentiles m.e2e_percentiles ∷ float m.e2e_goodput_pct ∷ buckets m.e2e_buckets ∷ []
cells itl_mean m = float m.inter_token_latency_ms ∷ []
cells itl_percentiles m =
    percentiles m.itl_percentiles ∷ float m.itl_goodput_pct ∷ buckets m.itl_buckets ∷ []
cells tpot_mean m = float m.per_request_tps ∷ float m.tpot_ms ∷ []
cells tpot_percentiles m =
    percentiles m.tpot_percentiles ∷ float m.tpot_goodput_pct ∷ buckets m.tpot_buckets ∷ []

-- What an unreported field is on the wire: `null`, or `false` for a flag.
abbrev pub blank : {F : Type 0} → Cell F → Cell F
blank (float x) = float none
blank (count x) = count none
blank (flag x) = flag false
blank (percentiles x) = percentiles none
blank (buckets x) = buckets none

abbrev pub keep_cell : {F : Type 0} → Bool → Cell F → Cell F
keep_cell keep c = if keep then c else blank c

keep_if-keep_if :
    {A : Type 0} (a b : Bool) (o : Option A) → keep_if b (keep_if a o) ≡ keep_if (a && b) o
keep_if-keep_if a b o = ground arith

and_assoc : (a b c : Bool) → ((a && b) && c) ≡ (a && (b && c))
and_assoc a b c = ground arith

module _ {F : Type 0} (m : EngineMetrics F) (keep : GroupSet) where
  -- The fields of a group are as the adapter gave them where the group is reported, and all blank
  -- where it is not.
  pub cells-reported_only :
      (g : MetricGroup) → cells g (reported_only m keep) ≡ map (keep_cell (keep g)) (cells g m)
  unfolding reported_only
  cells-reported_only throughput = ground arith
  cells-reported_only speculative_decoding = ground arith
  cells-reported_only _ = ground arith

-- Restricting twice is restricting once to the groups in both sets.
pub reported_only-reported_only :
    {F : Type 0} (m : EngineMetrics F) (s t : GroupSet)
    → reported_only (reported_only m s) t ≡ reported_only m (λ g. s g && t g)
unfolding reported_only
reported_only-reported_only m s t = simp (keep_if-keep_if, and_assoc)
