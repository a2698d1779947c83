-- ===== src/Adapters/Reach.antt =====
-- engines/mod.rs: what the engine loop reaches with the adapters of the program.
use spark_dashboard.Prelude.{◌≡◌, refl, ap, ℕ, String, Option, List}
use spark_dashboard.Float.{F64}
use spark_dashboard.Engine.Types.{EngineType, vllm, sglang, ollama, llama_cpp}
use spark_dashboard.Engine.State.Identity.{KeepsIdentity}
use spark_dashboard.Engine.Collector.{Collector, EngineOverride}
use spark_dashboard.Engine.Collector.Reach.{IsFaithful, IsConsistent, Reach, Reach-IsConsistent}
use spark_dashboard.Adapters.{
  Outside, Visit, AnyAdapter, of_vllm, of_sglang, of_ollama, of_llama_cpp, Adapter, engine_type,
  refresh_loaded_models, get_model_info, get_metrics, new_adapter, create_adapter, adapters, visit,
}

module _ {F : Type 0} (f : F64 F) (outside : Outside f) where
  engine_type-new_adapter :
      (t : EngineType) (model : Option String) → engine_type (new_adapter f outside t model) ≡ t
  unfolding engine_type new_adapter
  engine_type-new_adapter vllm model = refl
  engine_type-new_adapter sglang model = refl
  engine_type-new_adapter ollama model = refl
  engine_type-new_adapter llama_cpp model = refl

  engine_type-get_model_info :
      (v : Visit) (a : AnyAdapter F) → engine_type (get_model_info f outside v a).1 ≡ engine_type a
  unfolding engine_type
  engine_type-get_model_info v (of_vllm a) = refl
  engine_type-get_model_info v (of_sglang a) = refl
  engine_type-get_model_info v (of_ollama a) = refl
  engine_type-get_model_info v (of_llama_cpp a) = refl

  engine_type-get_metrics :
      (v : Visit) (a : AnyAdapter F) → engine_type (get_metrics f outside v a).1 ≡ engine_type a
  unfolding engine_type
  engine_type-get_metrics v (of_vllm a) = refl
  engine_type-get_metrics v (of_sglang a) = refl
  engine_type-get_metrics v (of_ollama a) = refl
  engine_type-get_metrics v (of_llama_cpp a) = refl

  engine_type-refresh_loaded_models :
      (v : Visit) (a : AnyAdapter F)
      → engine_type (refresh_loaded_models f outside v a) ≡ engine_type a
  unfolding engine_type
  engine_type-refresh_loaded_models v (of_vllm a) = refl
  engine_type-refresh_loaded_models v (of_sglang a) = refl
  engine_type-refresh_loaded_models v (of_ollama a) = refl
  engine_type-refresh_loaded_models v (of_llama_cpp a) = refl

  adapters-KeepsIdentity : KeepsIdentity (adapters f outside)
  adapters-KeepsIdentity = record {
    health = λ a. refl;
    model = λ a. ap (λ t. (t, a.endpoint)) (engine_type-get_model_info (visit f outside a) a.inner);
    metrics = λ a. ap (λ t. (t, a.endpoint)) (engine_type-get_metrics (visit f outside a) a.inner);
    loaded = λ a.
        ap (λ t. (t, a.endpoint)) (engine_type-refresh_loaded_models (visit f outside a) a.inner);
  }

  create_adapter-IsFaithful : IsFaithful (adapters f outside) (create_adapter f outside)
  unfolding create_adapter
  create_adapter-IsFaithful = record {
    created = λ t endpoint model key. ap (λ k. (k, endpoint)) (engine_type-new_adapter t model);
    keeps = adapters-KeepsIdentity;
  }

  -- In every state that the loop reaches with the adapters that the program creates, by detections and
  -- polls in any order, no key is there twice, each engine is of the type and at the endpoint of its key,
  -- and the state of each engine is consistent. What a call of an adapter meets is any function of the
  -- endpoint, the API key and the number of its calls before.
  pub create_adapter-IsConsistent :
      (resolve_key : String → Option String) {overrides : List EngineOverride} {start : ℕ}
      {c : Collector F (Adapter F)}
      → Reach (adapters f outside) (create_adapter f outside) resolve_key overrides start c
      → IsConsistent (adapters f outside) c.engines
  create_adapter-IsConsistent resolve_key r =
      Reach-IsConsistent (adapters f outside) (create_adapter f outside) resolve_key
        create_adapter-IsFaithful r
