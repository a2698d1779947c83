-- ===== src/Vllm/Tests.antt =====
-- A vLLM server with one counter, polled for the first time.
use spark_dashboard.Prelude.{
  ℕ, String, refl, Option, none, some, List, [], ◌∷◌, upsert, map_entries,
}
use spark_dashboard.Float.Sample.{sample}
use spark_dashboard.Http.{Server, answered}
use spark_dashboard.Prometheus.{ParsedMetrics, Sample, Value, parse_samples}
use spark_dashboard.Prometheus.Exposition.{parse_prometheus_text}
use spark_dashboard.Warmup
use spark_dashboard.Histogram.{Constants}
use spark_dashboard.Engine.Metrics.{EngineMetrics}
use spark_dashboard.Scraping.Warming.{HasNoRates}
use spark_dashboard.Vllm.Adapter.{VllmAdapter, new, observe_scrape, get_metrics}
use spark_dashboard.Vllm.Warming.{get_metrics-HasNoRates}

abbrev constants : Constants sample
constants = record { p50 = 0; p95 = 1; p99 = 1; hundred = 100; thousand = 1000 }

abbrev millis : ℕ → ℕ
millis n = n

abbrev one_counter : String → Option (List (Sample ℕ))
one_counter body =
    some (
      record { metric = "vllm_generation_tokens_total"; labels = []; value = Value.counter 7 } ∷ [])

-- Every path is answered with a scrape.
abbrev scraped : Server
scraped path = answered (record { status = 200; server = none; body = some "text" })

abbrev seven_tokens : ParsedMetrics ℕ
seven_tokens = record {
  gauges = [];
  counters = ("vllm_generation_tokens_total", 7) ∷ [];
  histograms = [];
}

abbrev adapter : VllmAdapter ℕ
adapter = new sample millis constants one_counter none none

abbrev shown : EngineMetrics ℕ
shown = (observe_scrape sample millis constants one_counter seven_tokens 5 adapter).0

get_metrics-HasNoRates_example : HasNoRates shown
unfolding new get_metrics Warmup.new parse_prometheus_text parse_samples upsert map_entries
get_metrics-HasNoRates_example =
    get_metrics-HasNoRates sample millis constants one_counter scraped 5 adapter shown refl refl
