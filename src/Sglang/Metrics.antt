-- ===== src/Sglang/Metrics.antt =====
-- engines/sglang.rs: the metrics of one scrape.
use mathlib.Core.Option
use spark_dashboard.Prelude.{
  ℕ, String, Bool, true, false, not, ◌&&◌, ◌||◌, Option, none, some, List, [], ◌∷◌, any, all,
  filterb, length, bind_some, keep_if, lookup, or_else, or_default, ◌==◌, string_eq, nat_eq,
  map_entries, Assoc,
}
use spark_dashboard.Text.{append, starts_with, is_empty_text}
use spark_dashboard.Float.{F64}
use spark_dashboard.Prometheus.{
  ParsedMetrics, GaugeSeries, Sample, gauge_sum, gauge_mean, sum_values,
}
use spark_dashboard.Prometheus.Exposition.{parse_prometheus_text}
use spark_dashboard.Engine.Metrics.{EngineMetrics}
use spark_dashboard.Histogram.{Constants, percentiles_ms, goodput_pct, wire_buckets}
use spark_dashboard.Scraping.{RateInputs, counter, per, cast, clamped, percent, mean_of_histogram}

abbrev pub is_sglang {ℓ} : {A : Type ℓ} → String × A → Bool
is_sglang entry = starts_with entry.0 "sglang_"

module _ {F : Type 0} where
  -- A series with no priority: of all of an engine's requests.
  abbrev pub is_total : GaugeSeries F → Bool
  is_total g = elim (lookup "priority" g.labels) [ none ↦ true | some p ↦ is_empty_text p ]

  unfoldable pub without_priorities : ParsedMetrics F → ParsedMetrics F
  without_priorities parsed = record parsed {
    gauges = map_entries (λ name series. filterb is_total series) parsed.gauges;
  }

  unfoldable pub has_sglang_series : ParsedMetrics F → Bool
  has_sglang_series parsed =
      any is_sglang parsed.counters
      || any is_sglang parsed.gauges
      || any is_sglang parsed.histograms

abbrev is_label : String → String → Assoc String String → Bool
is_label key value labels = elim (lookup key labels) [ some found ↦ found == value | none ↦ false ]

-- `==` of two maps of labels, each without a key twice
abbrev pub same_labels : Assoc String String → Assoc String String → Bool
same_labels a b = length a == length b && all (λ entry. is_label entry.0 entry.1 b) a

module _ {F : Type 0} (f : F64 F) where
  unfoldable pub parse_sglang :
      (String → Option (List (Sample F))) → String → Option (ParsedMetrics F)
  unfolding without_priorities
  parse_sglang scrape body =
      bind_some (parse_prometheus_text f scrape body) (λ p. some (without_priorities p))

  abbrev pub series_of : ParsedMetrics F → String → List (GaugeSeries F)
  series_of parsed name = or_default [] (lookup name parsed.gauges)

  -- The ranks that have a drafter.
  abbrev pub drafting_ranks : ParsedMetrics F → List (GaugeSeries F)
  drafting_ranks parsed =
      filterb (λ g. f.lt f.zero g.value) (series_of parsed "sglang_spec_accept_length")

  abbrev pub mean_value : List (GaugeSeries F) → Option F
  mean_value [] = none
  mean_value (g ∷ series) = some (f.div (sum_values f (g ∷ series)) (f.of_ℕ (length (g ∷ series))))

  -- The accept length and the accept rate, of the ranks that have a drafter.
  unfoldable pub spec_acceptance : ParsedMetrics F → Option (F × Option F)
  spec_acceptance parsed =
      let ranks = drafting_ranks parsed in
      bind_some (mean_value ranks) (λ accept_length. some (
        accept_length,
        mean_value (
            filterb (λ g. any (λ r. same_labels r.labels g.labels) ranks)
              (series_of parsed "sglang_spec_accept_rate")),
      ))

  -- The draft rounds, by the counter and by what the server says of a drafter.
  unfoldable pub drafts_total : Option F → Option Bool → Option ℕ
  drafts_total rounds (some false) = none
  drafts_total (some rounds) (some true) = clamped f (some rounds)
  drafts_total (some rounds) none = clamped f (some rounds)
  drafts_total none (some true) = some 0
  drafts_total none none = none

module _ {F : Type 0} (f : F64 F) (k : Constants f) where
  abbrev pub non_negative : F → F
  non_negative v = f.max v f.zero

  unfoldable pub engine_metrics :
      ParsedMetrics F → ParsedMetrics F → RateInputs F → Bool → Option Bool → EngineMetrics F
  unfolding append spec_acceptance drafts_total
  engine_metrics parsed raw rates warming_up drafter =
      let steady = not warming_up in
      let acceptance = spec_acceptance f parsed in
      let ttft : String = "sglang_time_to_first_token_seconds" in
      let itl : String = "sglang_inter_token_latency_seconds" in
      let e2e : String = "sglang_e2e_request_latency_seconds" in
      record {
        tokens_per_sec = keep_if steady rates.tokens_per_sec;
        avg_tokens_per_sec = keep_if steady rates.avg_tokens_per_sec;
        per_request_tps = none;
        ttft_ms = keep_if steady (mean_of_histogram f k parsed ttft);
        active_requests = cast f (gauge_sum f parsed "sglang_num_running_reqs");
        queued_requests = cast f (gauge_sum f parsed "sglang_num_queue_reqs");
        kv_cache_percent = percent f k (
            or_else (gauge_mean f parsed "sglang_full_token_usage")
              (gauge_mean f parsed "sglang_token_usage"));
        kv_cache_is_estimated = false;
        total_requests = cast f (counter raw "sglang_time_to_first_token_seconds_count");
        e2e_latency_ms = keep_if steady (mean_of_histogram f k parsed e2e);
        prompt_tokens_per_sec = keep_if steady rates.prompt_tokens_per_sec;
        avg_prompt_tokens_per_sec = keep_if steady rates.avg_prompt_tokens_per_sec;
        per_request_prompt_tps = keep_if steady (
            per f (counter parsed "sglang_prompt_tokens_total")
              (counter parsed "sglang_time_to_first_token_seconds_sum"));
        swapped_requests = none;
        prefix_cache_hit_rate = percent f k (
            per f (counter parsed "sglang_cached_tokens_total")
              (counter parsed "sglang_prompt_tokens_total"));
        queue_time_ms = keep_if steady (mean_of_histogram f k parsed "sglang_queue_time_seconds");
        inter_token_latency_ms = keep_if steady (mean_of_histogram f k parsed itl);
        preemptions_total = none;
        total_prompt_tokens = cast f (counter parsed "sglang_prompt_tokens_total");
        total_generation_tokens = cast f (counter parsed "sglang_generation_tokens_total");
        prefix_cache_queries_total = cast f (counter parsed "sglang_prompt_tokens_total");
        avg_batch_size = none;
        ttft_percentiles = keep_if steady (percentiles_ms f k parsed ttft);
        itl_percentiles = keep_if steady (percentiles_ms f k parsed itl);
        e2e_percentiles = keep_if steady (percentiles_ms f k parsed e2e);
        ttft_goodput_pct = keep_if steady (goodput_pct f k parsed ttft (f.of_ℕ 500));
        itl_goodput_pct = keep_if steady (goodput_pct f k parsed itl (f.of_ℕ 50));
        e2e_goodput_pct = keep_if steady (goodput_pct f k parsed e2e (f.of_ℕ 5000));
        ttft_buckets = keep_if steady (wire_buckets f parsed ttft);
        itl_buckets = keep_if steady (wire_buckets f parsed itl);
        e2e_buckets = keep_if steady (wire_buckets f parsed e2e);
        tpot_ms = none;
        tpot_percentiles = none;
        tpot_goodput_pct = none;
        tpot_buckets = none;
        spec_decode_draft_tokens_total = none;
        spec_decode_accepted_tokens_total = none;
        spec_decode_drafts_total =
            drafts_total f (counter raw "sglang_spec_verify_calls_total") drafter;
        spec_decode_acceptance_rate = percent f k (bind_some acceptance (λ a. a.1));
        spec_decode_acceptance_rate_live = none;
        spec_decode_mean_acceptance_length =
            Option.map (λ a. non_negative (f.sub a.0 f.one)) acceptance;
        warming_up = warming_up;
      }
