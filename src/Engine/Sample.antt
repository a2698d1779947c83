-- ===== src/Engine/Sample.antt =====
-- An engine and its answers, for the tests. Floats are natural numbers here.
use spark_dashboard.Prelude.{ℕ, String, true, false, Option, none, some, [], ◌∷◌}
use spark_dashboard.Engine.Types.{
  EngineType, vllm, EngineStatus, ModelResolution, running, stopped, native,
}
use spark_dashboard.Engine.Metrics.{throughput, GroupSet, EngineMetrics}
use spark_dashboard.Engine.State.{EngineAdapter, EngineState, Readings}
use spark_dashboard.Engine.Collector.{Factory}

pub record Engine : Type 0 where
  pub kind : EngineType
  pub url : String
  pub health : EngineStatus
  pub key : Option String

abbrev pub only_throughput : GroupSet
only_throughput throughput = true
only_throughput _ = false

abbrev pub ten_tokens : EngineMetrics ℕ
ten_tokens = record {
  tokens_per_sec = some 10;
  avg_tokens_per_sec = some 9;
  per_request_tps = some 3;
  ttft_ms = some 4;
  active_requests = some 1;
  queued_requests = none;
  kv_cache_percent = some 50;
  kv_cache_is_estimated = true;
  total_requests = some 7;
  e2e_latency_ms = none;
  prompt_tokens_per_sec = none;
  avg_prompt_tokens_per_sec = none;
  per_request_prompt_tps = none;
  swapped_requests = none;
  prefix_cache_hit_rate = none;
  queue_time_ms = none;
  inter_token_latency_ms = none;
  preemptions_total = none;
  total_prompt_tokens = none;
  total_generation_tokens = none;
  prefix_cache_queries_total = none;
  avg_batch_size = none;
  ttft_percentiles = none;
  itl_percentiles = none;
  e2e_percentiles = none;
  ttft_goodput_pct = none;
  itl_goodput_pct = none;
  e2e_goodput_pct = none;
  ttft_buckets = none;
  itl_buckets = none;
  e2e_buckets = none;
  tpot_ms = none;
  tpot_percentiles = none;
  tpot_goodput_pct = none;
  tpot_buckets = none;
  spec_decode_draft_tokens_total = none;
  spec_decode_accepted_tokens_total = none;
  spec_decode_drafts_total = none;
  spec_decode_acceptance_rate = none;
  spec_decode_acceptance_rate_live = none;
  spec_decode_mean_acceptance_length = none;
  warming_up = false;
}

abbrev pub qwen : ModelResolution
qwen = record {
  model = some (record {
    name = "Qwen3";
    parameter_size = none;
    quantization = none;
    precision = none;
    tensor_type = none;
    model_type = none;
    pipeline_tag = none;
  });
  metadata_error = none;
}

abbrev pub sample_ops : EngineAdapter ℕ Engine
sample_ops = record {
  engine_type = λ e. e.kind;
  endpoint = λ e. e.url;
  metric_groups = λ e. only_throughput;
  metrics_launch_flag = λ e. some "--enable-metrics";
  metrics_off = λ e. false;
  metrics_error = λ e. none;
  loaded_models = λ e. none;
  refresh_loaded_models = λ e. e;
  health_check = λ e. (e.health, e);
  get_model_info = λ e. (qwen, e);
  get_metrics = λ e. (some ten_tokens, e);
}

abbrev pub sample_factory : Factory Engine
sample_factory kind url model key = record { kind = kind; url = url; health = running; key = key }

-- A vLLM server with an answer to the health probe.
abbrev pub engine : EngineStatus → Engine
engine health = record { kind = vllm; url = "http://localhost:8000"; health = health; key = none }

-- An engine that has been Stopped since the moment 100.
abbrev pub down : EngineStatus → EngineState Engine
down health = record {
  adapter = engine health;
  consecutive_failures = 3;
  last_seen = 0;
  status = stopped;
  stopped_at = some 100;
  deployment_mode = native;
  cached_model = none;
  model_metadata_error = none;
  model_fetched_at = none;
  model_attempted_at = none;
  pids = [];
  container_id = some "c1";
}

-- An engine that has answered all probes and has just had its model fetched.
abbrev pub live : EngineState Engine
live = record {
  adapter = engine running;
  consecutive_failures = 0;
  last_seen = 0;
  status = running;
  stopped_at = none;
  deployment_mode = native;
  cached_model = none;
  model_metadata_error = none;
  model_fetched_at = none;
  model_attempted_at = none;
  pids = 7 ∷ [];
  container_id = some "c1";
}

abbrev pub clock : Readings
clock = record { probed_at = 200; checked_at = 300; cached_at = 400 }
