-- ===== src/LlamaCpp/Tests.antt =====
-- A llama-server with one series in its metrics.
use spark_dashboard.Prelude.{
  ℕ, String, refl, Option, none, some, List, [], ◌∷◌, upsert, map_entries,
}
use spark_dashboard.Float.Sample.{sample}
use spark_dashboard.Json.{Json}
use spark_dashboard.Http.{Server, HttpResponse, answered}
use spark_dashboard.Prometheus.{ParsedMetrics, parse_samples, Sample, Value}
use spark_dashboard.Histogram.{Constants}
use spark_dashboard.Engine.Metrics.{EngineMetrics}
use spark_dashboard.Prometheus.Exposition.{parse_prometheus_text}
use spark_dashboard.LlamaCpp.Metrics.{is_llamacpp_scrape}
use spark_dashboard.LlamaCpp.Answers
use spark_dashboard.LlamaCpp.Adapter.{LlamaCppAdapter, latch}
use spark_dashboard.LlamaCpp.Polls.{new, parse_llamacpp, observe_scrape, asked_slots, get_metrics}
use spark_dashboard.LlamaCpp.Scrapes.{SameReadings, get_metrics-quiet}
use spark_dashboard.LlamaCpp.Declared.{IsDeclared, get_metrics-IsDeclared}

abbrev constants : Constants sample
constants = record { p50 = 0; p95 = 1; p99 = 1; hundred = 100; thousand = 1000 }

abbrev no_json : String → Option Json
no_json body = none

abbrev millis : ℕ → ℕ
millis n = n

abbrev one_counter : String → Option (List (Sample ℕ))
one_counter body = some (
    record { metric = "llamacpp_tokens_predicted_total"; labels = []; value = Value.counter 7 }
    ∷ [])

abbrev disabled : HttpResponse
disabled = record { status = 501; server = none; body = none }

-- Every path is answered by 501.
abbrev metrics_disabled : Server
metrics_disabled path = answered disabled

abbrev adapter : LlamaCppAdapter ℕ
adapter = new no_json sample millis constants one_counter none

get_metrics-quiet_example :
    SameReadings adapter
      (get_metrics no_json sample millis constants one_counter metrics_disabled 5 adapter).1
unfolding get_metrics Answers.metrics_answer
get_metrics-quiet_example =
    get_metrics-quiet no_json sample millis constants one_counter metrics_disabled 5 adapter refl

-- Every path is answered with a scrape.
abbrev scraped : Server
scraped path = answered (record { status = 200; server = none; body = some "text" })

abbrev seven_tokens : ParsedMetrics ℕ
seven_tokens = record {
  gauges = [];
  counters = ("llamacpp_tokens_predicted_total", 7) ∷ [];
  histograms = [];
}

abbrev answered_adapter : LlamaCppAdapter ℕ
answered_adapter = latch Answers.on adapter

abbrev shown : EngineMetrics ℕ
shown =
    (observe_scrape no_json sample millis constants one_counter seven_tokens
      (asked_slots no_json sample millis constants one_counter scraped seven_tokens
        answered_adapter)
      5 answered_adapter).0

get_metrics-IsDeclared_example :
    IsDeclared shown (get_metrics no_json sample millis constants one_counter scraped 5 adapter).1
unfolding get_metrics Answers.metrics_answer parse_llamacpp parse_prometheus_text is_llamacpp_scrape
    parse_samples upsert map_entries
get_metrics-IsDeclared_example =
    get_metrics-IsDeclared no_json sample millis constants one_counter scraped 5 adapter shown refl
