-- ===== src/Detection/Commands/Evidence.antt =====
-- engines/detector.rs: what a command line must show for each engine.
use spark_dashboard.Prelude.{
  String, ◌≡◌, ◌↔◌, ◌⊎◌, refl, true, none, some, List, [], ◌∷◌, ◌++◌, All, arith, string_eq,
}
use spark_dashboard.Text.Ends.{EndsWith, Contains, ends_with_iff, contains_iff}
use spark_dashboard.Engine.Types.{EngineType, vllm, sglang, ollama, llama_cpp}
use spark_dashboard.Detection.Commands.{
  names_vllm, names_sglang, server_named_by, engine_of_command,
}
use spark_dashboard.Detection.Commands.Decided
use spark_dashboard.Detection.Commands.Decided.{
  IsDecided, IsFirstNamed, engine_of_command-IsDecided,
}
use spark_dashboard.Detection.Commands.Programs.{
  IsOllamaServe, IsLlamaServer, or_iff, false_iff, is_ollama_server_iff, is_llama_server_iff,
}

-- The argument is the program vLLM, or has its module.
abbrev pub NamesVllm : String → Type 0
NamesVllm arg = ((arg ≡ "vllm") ⊎ EndsWith arg "/vllm") ⊎ Contains arg "vllm.entrypoints"

-- The argument is the program SGLang, or has one of its modules.
abbrev pub NamesSglang : String → Type 0
NamesSglang arg =
    (((arg ≡ "sglang") ⊎ EndsWith arg "/sglang") ⊎ Contains arg "sglang.launch_server")
    ⊎ Contains arg "sglang.srt"

-- The argument names this engine's server. One that names both names vLLM.
abbrev pub NamesServer : EngineType → String → Type 0
NamesServer vllm arg = NamesVllm arg
NamesServer sglang arg = NamesSglang arg × ¬ NamesVllm arg
NamesServer ollama arg = ⊥
NamesServer llama_cpp arg = ⊥

-- The first argument that names one of the two servers names this engine's.
abbrev pub IsNamedFirst : EngineType → List String → Type 0
IsNamedFirst e args =
    (before : List String) × (arg : String) × (after : List String) × (args ≡ before ++ arg ∷ after)
    × All (λ a. (¬ NamesVllm a) × (¬ NamesSglang a)) before
    × NamesServer e arg

abbrev pub Evidence : EngineType → List String → Type 0
Evidence ollama args = IsOllamaServe args
Evidence llama_cpp args = IsLlamaServer args
Evidence vllm args = (¬ IsOllamaServe args) × (¬ IsLlamaServer args) × IsNamedFirst vllm args
Evidence sglang args = (¬ IsOllamaServe args) × (¬ IsLlamaServer args) × IsNamedFirst sglang args

names_vllm_iff : (arg : String) → (names_vllm arg ≡ true) ↔ NamesVllm arg
unfolding names_vllm
names_vllm_iff arg =
    or_iff _ _ (or_iff _ _ (string_eq.beq_iff arg "vllm") (ends_with_iff arg "/vllm"))
      (contains_iff arg "vllm.entrypoints")

names_sglang_iff : (arg : String) → (names_sglang arg ≡ true) ↔ NamesSglang arg
unfolding names_sglang
names_sglang_iff arg =
    or_iff _ _
      (or_iff _ _ (or_iff _ _ (string_eq.beq_iff arg "sglang") (ends_with_iff arg "/sglang"))
        (contains_iff arg "sglang.launch_server"))
      (contains_iff arg "sglang.srt")

server_named_by-none :
    (arg : String) → (server_named_by arg ≡ none) ↔ ((¬ NamesVllm arg) × (¬ NamesSglang arg))
unfolding server_named_by
server_named_by-none arg =
    let v = false_iff _ (names_vllm_iff arg) in
    let s = false_iff _ (names_sglang_iff arg) in
    (
      (λ h. (v.0 (ground arith), s.0 (ground arith))),
      (λ (not_vllm, not_sglang). rw (v.1 not_vllm) (rw (s.1 not_sglang) refl)),
    )

server_named_by-NamesServer :
    (e : EngineType) (arg : String) → (server_named_by arg ≡ some e) ↔ NamesServer e arg
unfolding server_named_by
server_named_by-NamesServer vllm arg =
    let v = names_vllm_iff arg in ((λ h. v.0 (ground arith)), (λ is. rw (v.1 is) refl))
server_named_by-NamesServer sglang arg =
    let v = false_iff _ (names_vllm_iff arg) in
    let s = names_sglang_iff arg in
    (
      (λ h. (s.0 (ground arith), v.0 (ground arith))),
      (λ (is, not_vllm). rw (v.1 not_vllm) (rw (s.1 is) refl)),
    )
server_named_by-NamesServer ollama arg = ((λ h. ground arith), (λ h. elim h [ ]))
server_named_by-NamesServer llama_cpp arg = ((λ h. ground arith), (λ h. elim h [ ]))

All-iff : (P Q : String → Type 0) (l : List String) → ((a : String) → P a ↔ Q a) → All P l ↔ All Q l
All-iff P Q [] h = ((λ all. tt), (λ all. tt))
All-iff P Q (a ∷ l) h =
    let rest = All-iff P Q l h in
    ((λ all. ((h a).0 all.0, rest.0 all.1)), (λ all. ((h a).1 all.0, rest.1 all.1)))

IsFirstNamed-iff : (e : EngineType) (args : List String) → IsFirstNamed e args ↔ IsNamedFirst e args
IsFirstNamed-iff e args = (
  (λ (before, arg, after, split, silent, names). (
    before,
    arg,
    after,
    split,
    (All-iff _ _ before server_named_by-none).0 silent,
    (server_named_by-NamesServer e arg).0 names,
  )),
  (λ (before, arg, after, split, silent, names). (
    before,
    arg,
    after,
    split,
    (All-iff _ _ before server_named_by-none).1 silent,
    (server_named_by-NamesServer e arg).1 names,
  )),
)

IsNamedFirst-iff :
    (e : EngineType) (args : List String)
    → Decided.IsNamedFirst e args
      ↔ ((¬ IsOllamaServe args) × (¬ IsLlamaServer args) × IsNamedFirst e args)
IsNamedFirst-iff e args =
    let o = false_iff _ (is_ollama_server_iff args) in
    let l = false_iff _ (is_llama_server_iff args) in
    let n = IsFirstNamed-iff e args in
    (
      (λ (no_ollama, no_llama, first). (o.0 no_ollama, l.0 no_llama, n.0 first)),
      (λ (no_ollama, no_llama, first). (o.1 no_ollama, l.1 no_llama, n.1 first)),
    )

IsDecided-iff : (e : EngineType) (args : List String) → IsDecided e args ↔ Evidence e args
IsDecided-iff ollama args = is_ollama_server_iff args
IsDecided-iff llama_cpp args = is_llama_server_iff args
IsDecided-iff vllm args = IsNamedFirst-iff vllm args
IsDecided-iff sglang args = IsNamedFirst-iff sglang args

-- A command line runs Ollama exactly when its program is `ollama` or `ollama.exe`, by itself or after a
-- path, and the next argument is `serve`; llama.cpp exactly when its program is `llama-server` or
-- `llama-server.exe`; and vLLM or SGLang exactly when it is neither and the first of its arguments that
-- names one of the two names that one. An argument names vLLM if it is `vllm`, ends with `/vllm` or has
-- `vllm.entrypoints` in it, and else SGLang if it is `sglang`, ends with `/sglang` or has
-- `sglang.launch_server` or `sglang.srt` in it.
pub engine_of_command-Evidence :
    (args : List String) (e : EngineType) → (engine_of_command args ≡ some e) ↔ Evidence e args
engine_of_command-Evidence args e =
    let code = engine_of_command-IsDecided args e in
    let shown = IsDecided-iff e args in ((λ h. shown.0 (code.0 h)), (λ h. code.1 (shown.1 h)))
