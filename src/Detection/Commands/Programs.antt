-- ===== src/Detection/Commands/Programs.antt =====
-- engines/detector.rs: which program a command line starts, `ollama serve` or llama-server.
use Prim.Native.Char.{Char}
use spark_dashboard.Prelude.{
  String, ◌≡◌, ◌↔◌, ◌⊎◌, ◌∙◌, refl, ap, Bool, true, false, List, [], ◌∷◌, ◌||◌, ◌&&◌, inl, inr,
  arith, ◌==◌, string_eq, not,
}
use spark_dashboard.Text.{is_char}
use spark_dashboard.Text.Ends.{IsLastPart, last_part_iff}
use spark_dashboard.Text.Chars.{all_chars}
use spark_dashboard.Detection.Commands.{program_name, is_ollama_server, is_llama_server}

-- A separator of a path, of Unix or of Windows.
abbrev pub is_separator : Char → Bool
is_separator c = is_char b'/' c || is_char b'\\' c

-- The argument is the program, by itself or after a path that ends with a separator.
abbrev pub IsProgram : String → String → Type 0
IsProgram program arg = IsLastPart is_separator program arg

-- `ollama serve`, with any arguments after it.
abbrev pub IsOllamaServe : List String → Type 0
IsOllamaServe args =
    (program : String) × (rest : List String) × (args ≡ program ∷ "serve" ∷ rest)
    × (IsProgram "ollama" program ⊎ IsProgram "ollama.exe" program)

-- `llama-server`, with any arguments after it.
abbrev pub IsLlamaServer : List String → Type 0
IsLlamaServer args =
    (program : String) × (rest : List String) × (args ≡ program ∷ rest)
    × (IsProgram "llama-server" program ⊎ IsProgram "llama-server.exe" program)

both : (a b : Bool) → (a && b) ≡ true → (a ≡ true) × (b ≡ true)
both a b h = ground arith

-- Tests that tell whether something holds.
pub or_iff :
    {P Q : Type 0} (a b : Bool) → (a ≡ true) ↔ P → (b ≡ true) ↔ Q → ((a || b) ≡ true) ↔ (P ⊎ Q)
or_iff true b p q = ((λ h. inl (p.0 refl)), (λ h. refl))
or_iff false b p q = (
  (λ h. inr (q.0 h)),
  (λ h. elim h [ inl left ↦ (let bad : false ≡ true = p.1 left in cc) | inr right ↦ q.1 right ]),
)

pub false_iff : {P : Type 0} (b : Bool) → (b ≡ true) ↔ P → (b ≡ false) ↔ (¬ P)
false_iff true p = ((λ h. cc), (λ h. elim (h (p.0 refl)) [ ]))
false_iff false p = ((λ h x. let bad : false ≡ true = p.1 x in cc), (λ h. refl))

IsProgram-iff :
    (program arg : String)
    → all_chars (λ c. not (is_separator c)) program ≡ true
    → ((program_name arg == program) ≡ true) ↔ IsProgram program arg
unfolding program_name
IsProgram-iff program arg h =
    let last = last_part_iff is_separator program arg h in
    let same = string_eq.beq_iff (program_name arg) program in
    ((λ e. last.0 (same.0 e)), (λ found. same.1 (last.1 found)))

llama-IsProgram_iff :
    (arg : String)
    → ((program_name arg == "llama-server" || program_name arg == "llama-server.exe") ≡ true)
      ↔ (IsProgram "llama-server" arg ⊎ IsProgram "llama-server.exe" arg)
unfolding all_chars
llama-IsProgram_iff arg =
    or_iff _ _ (IsProgram-iff "llama-server" arg refl) (IsProgram-iff "llama-server.exe" arg refl)

ollama-IsProgram_iff :
    (arg : String)
    → ((program_name arg == "ollama" || program_name arg == "ollama.exe") ≡ true)
      ↔ (IsProgram "ollama" arg ⊎ IsProgram "ollama.exe" arg)
unfolding all_chars
ollama-IsProgram_iff arg =
    or_iff _ _ (IsProgram-iff "ollama" arg refl) (IsProgram-iff "ollama.exe" arg refl)

is_llama_server-IsLlamaServer :
    (args : List String) → is_llama_server args ≡ true → IsLlamaServer args
unfolding is_llama_server
is_llama_server-IsLlamaServer [] h = cc
is_llama_server-IsLlamaServer (arg ∷ args) h = (arg, args, refl, (llama-IsProgram_iff arg).0 h)

pub is_llama_server_iff : (args : List String) → (is_llama_server args ≡ true) ↔ IsLlamaServer args
unfolding is_llama_server
is_llama_server_iff args = (
  is_llama_server-IsLlamaServer args,
  (λ (program, rest, e, is). ap is_llama_server e ∙ (llama-IsProgram_iff program).1 is),
)

is_ollama_server-IsOllamaServe :
    (args : List String) → is_ollama_server args ≡ true → IsOllamaServe args
unfolding is_ollama_server
is_ollama_server-IsOllamaServe [] h = cc
is_ollama_server-IsOllamaServe (arg ∷ []) h = ground arith
is_ollama_server-IsOllamaServe (arg ∷ next ∷ args) h =
    let (program, serve) =
      both (program_name arg == "ollama" || program_name arg == "ollama.exe") _ h in
    let is : next ≡ "serve" = (string_eq.beq_iff next "serve").0 serve in
    (arg, args, ap (λ t. arg ∷ t ∷ args) is, (ollama-IsProgram_iff arg).0 program)

pub is_ollama_server_iff :
    (args : List String) → (is_ollama_server args ≡ true) ↔ IsOllamaServe args
unfolding is_ollama_server
is_ollama_server_iff args = (
  is_ollama_server-IsOllamaServe args,
  (λ (program, rest, e, is). ap is_ollama_server e ∙ rw ((ollama-IsProgram_iff program).1 is) refl),
)
