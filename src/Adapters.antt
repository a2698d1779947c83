-- ===== src/Adapters.antt =====
-- engines/mod.rs: `create_adapter`, and the four adapters behind the trait `EngineAdapter`.
use spark_dashboard.Prelude.{ℕ, suc, String, Bool, false, Option, none, some, List}
use spark_dashboard.Float.{F64}
use spark_dashboard.Json.{Json}
use spark_dashboard.Http.{Server}
use spark_dashboard.Prometheus.{Sample}
use spark_dashboard.Histogram.{Constants}
use spark_dashboard.Models.{HfModelResponse, OpenAiModelsResponse}
use spark_dashboard.Engine.Types.{
  EngineType, vllm, sglang, ollama, llama_cpp, EngineStatus, ModelResolution, MetricsError,
  LoadedModel,
}
use spark_dashboard.Engine.Metrics.{GroupSet, EngineMetrics}
use spark_dashboard.Engine.State.{EngineAdapter}
use spark_dashboard.Engine.Collector.{Factory}
use spark_dashboard.Vllm.Adapter as Vllm
use spark_dashboard.Sglang.Adapter as Sglang
use spark_dashboard.Ollama.Adapter as Ollama
use spark_dashboard.LlamaCpp.Adapter as LlamaCpp
use spark_dashboard.LlamaCpp.Polls as LlamaCppPolls
pub mod Reach
mod Tests

-- What one call of an adapter meets: the answers of the engine, those of the hub if it is asked, and
-- the readings of the clock in the order in which they are made.
pub record Visit : Type 0 where
  pub server : Server
  pub hub : Option Server
  pub first : ℕ
  pub second : ℕ
  pub third : ℕ

-- What the adapters use of libraries and of the environment. The calls that an adapter makes meet
-- visits, which depend on the endpoint and the API key that its requests carry.
pub record Outside {F : Type 0} (f : F64 F) : Type 0 where
  pub seconds : ℕ → F
  pub constants : Constants f
  pub scrape : String → Option (List (Sample F))
  pub parse_json : String → Option Json
  pub to_lowercase : String → String
  pub reason : ℕ → String
  pub format_tenths : ℕ → ℕ → String
  pub read_hf : String → Option HfModelResponse
  pub read_models : String → Option OpenAiModelsResponse
  pub read_ps : String → Option Ollama.PsResponse
  pub warmup_variable : Option String
  pub visits : String → Option String → ℕ → Visit

-- The adapter behind `Box<dyn EngineAdapter>`.
pub data AnyAdapter (F : Type 0) : Type 0 where
  of_vllm : Vllm.VllmAdapter F → AnyAdapter F
  of_sglang : Sglang.SglangAdapter F → AnyAdapter F
  of_ollama : Ollama.OllamaAdapter → AnyAdapter F
  of_llama_cpp : LlamaCpp.LlamaCppAdapter F → AnyAdapter F

-- An adapter with its client, which holds the endpoint, and the number of calls made so far.
pub record Adapter (F : Type 0) : Type 0 where
  pub endpoint : String
  pub api_key : Option String
  pub calls : ℕ
  pub inner : AnyAdapter F

module _ {F : Type 0} where
  unfoldable pub engine_type : AnyAdapter F → EngineType
  engine_type (of_vllm a) = vllm
  engine_type (of_sglang a) = sglang
  engine_type (of_ollama a) = ollama
  engine_type (of_llama_cpp a) = llama_cpp

  abbrev pub metric_groups : AnyAdapter F → GroupSet
  metric_groups (of_vllm a) = Vllm.metric_groups
  metric_groups (of_sglang a) = Sglang.metric_groups
  metric_groups (of_ollama a) = Ollama.metric_groups
  metric_groups (of_llama_cpp a) = LlamaCpp.metric_groups a

  -- The trait has a default, which only two adapters replace.
  abbrev pub metrics_launch_flag : AnyAdapter F → Option String
  metrics_launch_flag (of_sglang a) = some "--enable-metrics"
  metrics_launch_flag (of_llama_cpp a) = some "--metrics"
  metrics_launch_flag _ = none

  abbrev pub metrics_off : AnyAdapter F → Bool
  metrics_off (of_sglang a) = a.metrics_off
  metrics_off (of_llama_cpp a) = LlamaCpp.metrics_off a
  metrics_off _ = false

  abbrev pub metrics_error : AnyAdapter F → Option MetricsError
  metrics_error (of_llama_cpp a) = LlamaCpp.metrics_error a
  metrics_error _ = none

  abbrev pub loaded_models : AnyAdapter F → Option (List LoadedModel)
  loaded_models (of_ollama a) = Ollama.loaded_models a
  loaded_models _ = none

module _ {F : Type 0} (f : F64 F) (outside : Outside f) where
  abbrev pub refresh_loaded_models : Visit → AnyAdapter F → AnyAdapter F
  refresh_loaded_models v (of_ollama a) =
      of_ollama (Ollama.refresh_loaded_models outside.read_ps v.server a)
  refresh_loaded_models v (of_vllm a) = of_vllm a
  refresh_loaded_models v (of_sglang a) = of_sglang a
  refresh_loaded_models v (of_llama_cpp a) = of_llama_cpp a

  abbrev pub health_check : Visit → AnyAdapter F → EngineStatus
  health_check v (of_vllm a) = Vllm.health_check outside.reason v.server
  health_check v (of_sglang a) = Sglang.health_check outside.reason v.server
  health_check v (of_ollama a) = Ollama.health_check outside.reason v.server
  health_check v (of_llama_cpp a) =
      LlamaCpp.health_check outside.parse_json outside.format_tenths outside.reason v.server

  abbrev pub get_model_info : Visit → AnyAdapter F → ModelResolution × AnyAdapter F
  get_model_info v (of_vllm a) =
      let got =
        Vllm.get_model_info outside.format_tenths outside.read_hf outside.read_models v.server v.hub
          v.first v.second a in
      (got.0, of_vllm got.1)
  get_model_info v (of_sglang a) =
      let got =
        Sglang.get_model_info outside.format_tenths outside.read_hf outside.read_models v.server
          v.hub v.first v.second a in
      (got.0, of_sglang got.1)
  get_model_info v (of_ollama a) = (Ollama.get_model_info, of_ollama a)
  get_model_info v (of_llama_cpp a) =
      let got = LlamaCpp.get_model_info outside.parse_json outside.format_tenths v.server a in
      (got.0, of_llama_cpp got.1)

  abbrev pub get_metrics : Visit → AnyAdapter F → Option (EngineMetrics F) × AnyAdapter F
  get_metrics v (of_vllm a) =
      let got =
        Vllm.get_metrics f outside.seconds outside.constants outside.scrape v.server v.first a in
      (got.0, of_vllm got.1)
  get_metrics v (of_sglang a) =
      let got =
        Sglang.get_metrics outside.parse_json outside.to_lowercase f outside.seconds
          outside.constants outside.scrape v.server v.first v.second v.third a in
      (got.0, of_sglang got.1)
  get_metrics v (of_ollama a) = (Ollama.get_metrics, of_ollama a)
  get_metrics v (of_llama_cpp a) =
      let got =
        LlamaCppPolls.get_metrics outside.parse_json f outside.seconds outside.constants
          outside.scrape v.server v.first a in
      (got.0, of_llama_cpp got.1)

  unfoldable pub new_adapter : EngineType → Option String → AnyAdapter F
  new_adapter vllm model =
      of_vllm
        (Vllm.new f outside.seconds outside.constants outside.scrape model outside.warmup_variable)
  new_adapter sglang model = of_sglang (Sglang.new f outside.seconds model outside.warmup_variable)
  new_adapter ollama model = of_ollama Ollama.new
  new_adapter llama_cpp model = of_llama_cpp (
      LlamaCppPolls.new outside.parse_json f outside.seconds outside.constants outside.scrape model)

  unfoldable pub create_adapter : Factory (Adapter F)
  unfolding new_adapter
  create_adapter engine_type endpoint model_hint api_key = record {
    endpoint = endpoint;
    api_key = api_key;
    calls = 0;
    inner = new_adapter engine_type model_hint;
  }

  -- What the next call meets.
  abbrev pub visit : Adapter F → Visit
  visit a = outside.visits a.endpoint a.api_key a.calls

  abbrev pub called : Adapter F → AnyAdapter F → Adapter F
  called a inner = record a { calls = suc a.calls; inner = inner }

  abbrev pub adapters : EngineAdapter F (Adapter F)
  adapters = record {
    engine_type = λ a. engine_type a.inner;
    endpoint = λ a. a.endpoint;
    metric_groups = λ a. metric_groups a.inner;
    metrics_launch_flag = λ a. metrics_launch_flag a.inner;
    metrics_off = λ a. metrics_off a.inner;
    metrics_error = λ a. metrics_error a.inner;
    loaded_models = λ a. loaded_models a.inner;
    refresh_loaded_models = λ a. called a (refresh_loaded_models (visit a) a.inner);
    health_check = λ a. (health_check (visit a) a.inner, called a a.inner);
    get_model_info = λ a. let got = get_model_info (visit a) a.inner in (got.0, called a got.1);
    get_metrics = λ a. let got = get_metrics (visit a) a.inner in (got.0, called a got.1);
  }
