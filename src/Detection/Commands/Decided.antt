-- ===== src/Detection/Commands/Decided.antt =====
-- engines/detector.rs: how the tests of a command line decide between the engines.
use spark_dashboard.Prelude.{
  String, ◌≡◌, ◌≢◌, ◌↔◌, ◌∙◌, refl, ap, true, false, none, some, List, [], ◌∷◌, ◌++◌, ◌||◌, inl,
  inr, All, arith, ◌==◌, string_eq, Bool-cases, Option-cases,
}
use spark_dashboard.Engine.Types.{EngineType, vllm, sglang, ollama, llama_cpp}
use spark_dashboard.Detection.Commands.{
  program_name, server_named_by, is_ollama_server, is_llama_server, first_named, engine_of_command,
}

-- The first argument that names a server names this engine's.
abbrev pub IsFirstNamed : EngineType → List String → Type 0
IsFirstNamed e args =
    (before : List String) × (arg : String) × (after : List String) × (args ≡ before ++ arg ∷ after)
    × All (λ a. server_named_by a ≡ none) before
    × (server_named_by arg ≡ some e)

-- Neither Ollama's server nor llama.cpp's, and so decided by the arguments in their order.
abbrev pub IsNamedFirst : EngineType → List String → Type 0
IsNamedFirst e args =
    (is_ollama_server args ≡ false) × (is_llama_server args ≡ false) × IsFirstNamed e args

abbrev pub IsDecided : EngineType → List String → Type 0
IsDecided ollama args = is_ollama_server args ≡ true
IsDecided llama_cpp args = is_llama_server args ≡ true
IsDecided vllm args = IsNamedFirst vllm args
IsDecided sglang args = IsNamedFirst sglang args

server_named_by-kinds :
    (arg : String) → (server_named_by arg ≢ some ollama) × (server_named_by arg ≢ some llama_cpp)
unfolding server_named_by
server_named_by-kinds arg = (λ e. ground arith, λ e. ground arith)

IsFirstNamed-first_named :
    (args : List String) (e : EngineType) → first_named args ≡ some e → IsFirstNamed e args
IsFirstNamed-first_named [] e h = cc
IsFirstNamed-first_named (arg ∷ args) e h = elim (Option-cases (server_named_by arg)) [
  | inl silent ↦
      let (before, found, after, split, silents, names) =
        IsFirstNamed-first_named args e (ground (arith, silent)) in
      (arg ∷ before, found, after, ap (λ l. arg ∷ l) split, (silent, silents), names)
  | inr (other, named) ↦ ([], arg, args, refl, tt, named ∙ ground (arith, named))
]

first_named-IsFirstNamed :
    (before : List String) (arg : String) (after : List String) (e : EngineType)
    → All (λ a. server_named_by a ≡ none) before
    → server_named_by arg ≡ some e
    → first_named (before ++ arg ∷ after) ≡ some e
first_named-IsFirstNamed [] arg after e h named = ground (arith, named)
first_named-IsFirstNamed (b ∷ before) arg after e h named =
    rw h.0 (first_named-IsFirstNamed before arg after e h.1 named)

first_named-kinds :
    (args : List String) → (first_named args ≢ some ollama) × (first_named args ≢ some llama_cpp)
first_named-kinds [] = (λ e. cc, λ e. cc)
first_named-kinds (arg ∷ args) = elim (Option-cases (server_named_by arg)) [
  | inl silent ↦ rw silent (first_named-kinds args)
  | inr (other, named) ↦ rw named (rw (← named) (server_named_by-kinds arg))
]

other_text : (n a b : String) → (a == b) ≡ false → (n == a) ≡ true → (n == b) ≡ false
other_text n a b differ same = rw ((string_eq.beq_iff n a).0 same) differ

not_ollama :
    (n a : String)
    → (a == "ollama") ≡ false
    → (a == "ollama.exe") ≡ false
    → (n == a) ≡ true
    → (n == "ollama" || n == "ollama.exe") ≡ false
not_ollama n a d d2 same = rw (other_text n a "ollama" d same) (other_text n a "ollama.exe" d2 same)

llama_server-ollama_server :
    (args : List String) → is_llama_server args ≡ true → is_ollama_server args ≡ false
unfolding is_llama_server is_ollama_server
llama_server-ollama_server [] h = refl
llama_server-ollama_server (arg ∷ args) h = elim (Bool-cases (program_name arg == "llama-server")) [
  | inl plain ↦ rw (not_ollama (program_name arg) "llama-server" refl refl plain) refl
  | inr not_plain ↦
      rw (not_ollama (program_name arg) "llama-server.exe" refl refl (ground (arith, not_plain)))
        refl
]

named_first :
    (e : EngineType) (args : List String)
    → first_named args ≡ some e
    → is_ollama_server args ≡ false
    → is_llama_server args ≡ false
    → IsDecided e args
named_first vllm args h o l = (o, l, IsFirstNamed-first_named args vllm h)
named_first sglang args h o l = (o, l, IsFirstNamed-first_named args sglang h)
named_first ollama args h o l = elim ((first_named-kinds args).0 h) [ ]
named_first llama_cpp args h o l = elim ((first_named-kinds args).1 h) [ ]

engine-IsDecided :
    (args : List String) (e : EngineType) → engine_of_command args ≡ some e → IsDecided e args
unfolding engine_of_command
engine-IsDecided args e h = elim (Bool-cases (is_ollama_server args)) [
  | inl o ↦ let same : ollama ≡ e = ground (arith, o) in rw (← same) o
  | inr no_ollama ↦ elim (Bool-cases (is_llama_server args)) [
    | inl l ↦ let same : llama_cpp ≡ e = ground (arith, l) in rw (← same) l
    | inr no_llama ↦ named_first e args (ground arith) no_ollama no_llama
  ]
]

of_named :
    (e : EngineType) (args : List String) → IsNamedFirst e args → engine_of_command args ≡ some e
unfolding engine_of_command
of_named e args (no_ollama, no_llama, (before, arg, after, split, silents, names)) =
    rw no_ollama
      (rw no_llama (rw split (first_named-IsFirstNamed before arg after e silents names)))

IsDecided-engine :
    (e : EngineType) (args : List String) → IsDecided e args → engine_of_command args ≡ some e
unfolding engine_of_command
IsDecided-engine ollama args h = rw h refl
IsDecided-engine llama_cpp args h = rw (llama_server-ollama_server args h) (rw h refl)
IsDecided-engine vllm args h = of_named vllm args h
IsDecided-engine sglang args h = of_named sglang args h

-- The engine of a command line is the one that its tests decide for.
pub engine_of_command-IsDecided :
    (args : List String) (e : EngineType) → (engine_of_command args ≡ some e) ↔ IsDecided e args
engine_of_command-IsDecided args e = (engine-IsDecided args e, IsDecided-engine e args)
