-- ===== src/Sglang/Tests.antt =====
-- An SGLang server with one counter, and one that comes and goes.
use spark_dashboard.Prelude.{
  ℕ, String, ◌≡◌, refl, true, false, Option, none, some, List, [], ◌∷◌, upsert, map_entries,
}
use spark_dashboard.Float.Sample.{sample}
use spark_dashboard.Json.{Json}
use spark_dashboard.Http.{Server, answered, failed}
use spark_dashboard.Prometheus.{ParsedMetrics, Sample, Value, parse_samples}
use spark_dashboard.Warmup
use spark_dashboard.Prometheus.Exposition.{parse_prometheus_text}
use spark_dashboard.Text.{starts_with}
use spark_dashboard.Sglang.Metrics.{parse_sglang, has_sglang_series}
use spark_dashboard.Histogram.{Constants}
use spark_dashboard.Engine.Metrics.{EngineMetrics}
use spark_dashboard.Sglang.Adapter.{
  SglangAdapter, new, observe_scrape, get_metrics, metrics_off_signal,
}
use spark_dashboard.Sglang.Polls.{IsGiven, get_metrics-IsGiven}
use spark_dashboard.Sglang.Latches.{Poll, poll_all, poll_all-last_verdict}

abbrev constants : Constants sample
constants = record { p50 = 0; p95 = 1; p99 = 1; hundred = 100; thousand = 1000 }

abbrev millis : ℕ → ℕ
millis n = n

abbrev no_json : String → Option Json
no_json body = none

abbrev as_is : String → String
as_is text = text

abbrev one_counter : String → Option (List (Sample ℕ))
one_counter body = some (
    record { metric = "sglang_generation_tokens_total"; labels = []; value = Value.counter 7 } ∷ [])

-- Every path is answered with a scrape.
abbrev scraped : Server
scraped path = answered (record { status = 200; server = none; body = some "text" })

abbrev missing : Server
missing path = answered (record { status = 404; server = none; body = some "not found" })

abbrev offline : Server
offline path = failed false "connection refused"

abbrev seven_tokens : ParsedMetrics ℕ
seven_tokens = record {
  gauges = [];
  counters = ("sglang_generation_tokens_total", 7) ∷ [];
  histograms = [];
}

abbrev adapter : SglangAdapter ℕ
adapter = new sample millis none none

abbrev shown : EngineMetrics ℕ
shown =
    (observe_scrape no_json as_is sample millis constants one_counter scraped seven_tokens 5 6 7
      adapter).0

get_metrics-IsGiven_example :
    IsGiven no_json as_is sample millis constants one_counter shown
      (get_metrics no_json as_is sample millis constants one_counter scraped 5 6 7 adapter).1
unfolding new get_metrics Warmup.new parse_sglang parse_prometheus_text has_sglang_series
    parse_samples upsert starts_with map_entries metrics_off_signal
get_metrics-IsGiven_example =
    get_metrics-IsGiven no_json as_is sample millis constants one_counter scraped 5 6 7 adapter
      shown refl

abbrev poll_of : Server → Poll
poll_of asked = record { server = asked; now = 5; asked = 6; at = 7 }

poll_all-last_verdict_example :
    (poll_all no_json as_is sample millis constants one_counter
      (poll_of scraped ∷ poll_of missing ∷ poll_of offline ∷ [])
      adapter).metrics_off
    ≡ true
unfolding metrics_off_signal
poll_all-last_verdict_example =
    poll_all-last_verdict no_json as_is sample millis constants one_counter (poll_of scraped ∷ [])
      (poll_of offline ∷ []) adapter (poll_of missing) true refl (refl, tt)
