-- ===== src/Adapters/Tests.antt =====
-- The loop with the adapters of the program: a vLLM server that is configured by hand and an SGLang
-- one that is detected, of which every path is answered with a scrape.
use spark_dashboard.Prelude.{ℕ, String, Option, none, some, List, [], ◌∷◌}
use spark_dashboard.Float.Sample.{sample}
use spark_dashboard.Http.{Server, answered}
use spark_dashboard.Prometheus.{Value}
use spark_dashboard.Engine.Types.{vllm, sglang, native}
use spark_dashboard.Engine.Sample.{clock}
use spark_dashboard.Engine.Collector.{
  Collector, DetectedEngine, EngineOverride, seed, detect_tick, poll_tick,
}
use spark_dashboard.Engine.Collector.Reach.{IsConsistent, begin, next, detection, polling}
use spark_dashboard.Adapters.{Outside, Adapter, create_adapter, adapters}
use spark_dashboard.Adapters.Reach.{create_adapter-IsConsistent}

abbrev scraped : Server
scraped path = answered (record { status = 200; server = none; body = some "text" })

abbrev outside : Outside sample
outside = record {
  seconds = λ n. n;
  constants = record { p50 = 0; p95 = 1; p99 = 1; hundred = 100; thousand = 1000 };
  scrape = λ body. some (
      record { metric = "vllm_generation_tokens_total"; labels = []; value = Value.counter 7 }
      ∷ []);
  parse_json = λ body. none;
  to_lowercase = λ text. text;
  reason = λ status. "OK";
  format_tenths = λ a b. "1.0";
  read_hf = λ body. none;
  read_models = λ body. none;
  read_ps = λ body. none;
  warmup_variable = none;
  visits =
      λ endpoint key n. record { server = scraped; hub = none; first = n; second = n; third = n };
}

abbrev detected : DetectedEngine
detected = record {
  engine_type = sglang;
  endpoint = "http://localhost:30000";
  deployment_mode = native;
  served_model = some "Qwen/Qwen3-32B";
  pids = 8 ∷ [];
  container_id = none;
  fallback_endpoints = [];
}

abbrev by_hand : List EngineOverride
by_hand = record { engine_type = vllm; endpoint = "http://localhost:8000"; api_key = some "k" } ∷ []

abbrev no_key : String → Option String
no_key endpoint = none

abbrev after_start : Collector ℕ (Adapter ℕ)
after_start = record { engines = seed (create_adapter sample outside) by_hand 1; snapshots = [] }

abbrev after_detection : Collector ℕ (Adapter ℕ)
after_detection = record after_start {
  engines =
      detect_tick (create_adapter sample outside) no_key (detected ∷ []) 2 after_start.engines;
}

create_adapter-IsConsistent_example :
    IsConsistent
      (adapters sample outside)
      (poll_tick (adapters sample outside) (λ k. clock) 9 after_detection).engines
create_adapter-IsConsistent_example =
    create_adapter-IsConsistent sample outside no_key {overrides = by_hand} {start = 1}
      (next (next begin (detection (detected ∷ []) 2)) (polling (λ k. clock) 9))
