-- ===== src/Detection/Commands.antt =====
-- engines/detector.rs: which engine a command line runs.
pub mod Decided
pub mod Evidence
pub mod Programs
use spark_dashboard.Prelude.{
  ℕ, String, Bool, true, false, ◌&&◌, ◌||◌, Option, none, some, List, [], ◌∷◌, or_else, bind_some,
  get_elem?, ◌==◌, nat_eq, string_eq, if◌then◌else◌, is_some,
}
use spark_dashboard.Text.{ends_with, contains, last_part, is_char, split_whitespace}
use spark_dashboard.Engine.Types.{EngineType, vllm, sglang, ollama, llama_cpp, type_eq}

-- The text after the last `/` or `\`.
unfoldable pub program_name : String → String
unfolding last_part
program_name arg = last_part (λ c. is_char b'/' c || is_char b'\\' c) arg

unfoldable pub names_vllm : String → Bool
unfolding ends_with contains
names_vllm arg = arg == "vllm" || ends_with arg "/vllm" || contains arg "vllm.entrypoints"

unfoldable pub names_sglang : String → Bool
unfolding ends_with contains
names_sglang arg =
    arg == "sglang"
    || ends_with arg "/sglang"
    || contains arg "sglang.launch_server"
    || contains arg "sglang.srt"

unfoldable pub server_named_by : String → Option EngineType
unfolding names_vllm names_sglang
server_named_by arg =
    if names_vllm arg then some vllm else if names_sglang arg then some sglang else none

abbrev pub is_text : Option String → String → Bool
is_text none text = false
is_text (some s) text = s == text

unfoldable pub is_ollama_server : List String → Bool
unfolding program_name
is_ollama_server [] = false
is_ollama_server (arg ∷ args) =
    (program_name arg == "ollama" || program_name arg == "ollama.exe")
    && is_text (get_elem? args 0) "serve"

unfoldable pub is_llama_server : List String → Bool
unfolding program_name
is_llama_server [] = false
is_llama_server (arg ∷ args) =
    program_name arg == "llama-server" || program_name arg == "llama-server.exe"

-- `find_map(server_named_by)`
abbrev pub first_named : List String → Option EngineType
first_named [] = none
first_named (arg ∷ args) = or_else (server_named_by arg) (first_named args)

unfoldable pub engine_of_command : List String → Option EngineType
unfolding is_ollama_server is_llama_server server_named_by
engine_of_command args =
    if is_ollama_server args
    then some ollama
    else if is_llama_server args
    then some llama_cpp
    else first_named args

-- An argument of a process: as text, if it is that, and as text with replacement characters.
pub record OsArg : Type 0 where
  pub to_str : Option String
  pub to_string_lossy : String

-- `filter_map(|arg| arg.to_str())`
abbrev pub texts : List OsArg → List String
texts [] = []
texts (arg ∷ args) = elim arg.to_str [ some text ↦ text ∷ texts args | none ↦ texts args ]

unfoldable pub engine_of_process : List OsArg → Option EngineType
unfolding engine_of_command
engine_of_process cmd = engine_of_command (texts cmd)

abbrev pub is_type : EngineType → Option EngineType → Bool
is_type engine_type none = false
is_type engine_type (some other) = other == engine_type

unfoldable pub runs_engine : String → EngineType → Bool
unfolding engine_of_command split_whitespace
runs_engine command engine_type = is_type engine_type (engine_of_command (split_whitespace command))
