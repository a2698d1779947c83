-- ===== src/Overrides.antt =====
-- main.rs: the engines that are configured by hand.
use spark_dashboard.Prelude.{
  String, Option, none, some, List, [], ◌∷◌, ◌||◌, ◌==◌, string_eq, if◌then◌else◌,
}
use spark_dashboard.Engine.Types.{EngineType, vllm, sglang, ollama, llama_cpp}
use spark_dashboard.Engine.Collector.{EngineOverride}
use spark_dashboard.Engine.ApiKeys.{ApiKeyResolver, resolve}

-- The type of a name in lower case.
unfoldable pub engine_named : String → Option EngineType
engine_named name =
    if name == "vllm"
    then some vllm
    else if name == "sglang"
    then some sglang
    else if name == "ollama"
    then some ollama
    else if name == "llamacpp" || name == "llama.cpp" || name == "llama-cpp"
    then some llama_cpp
    else none

-- `to_lowercase` is a parameter.
module _ (to_lowercase : String → String) where
  unfoldable pub engine_overrides : List String → List String → ApiKeyResolver → List EngineOverride
  unfolding engine_named
  engine_overrides (engine_str ∷ engines) (url ∷ urls) api_keys =
      let rest = engine_overrides engines urls api_keys in
      elim (engine_named (to_lowercase engine_str)) [
        | some engine_type ↦
            record { engine_type = engine_type; endpoint = url; api_key = resolve api_keys url }
            ∷ rest
        | none ↦ rest
      ]
  engine_overrides _ _ api_keys = []
