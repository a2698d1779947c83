-- ===== src/Detection/Arguments.antt =====
-- engines/detector.rs: what is read off command lines: the endpoint, the port, and the model.
use spark_dashboard.Prelude.{
  ℕ, ◌^◌, String, true, false, not, ◌&&◌, ◌||◌, Option, none, some, List, [], ◌∷◌, bind_some,
  or_default, or_else, get_elem?, is_some, ◌==◌, string_eq, if◌then◌else◌,
}
use spark_dashboard.Text.{
  append, strip_prefix, starts_with, rsplit_once, is_char, is_empty_text, parse_uint,
  split_whitespace, trim, join_words,
}
use spark_dashboard.Engine.Types.{EngineType, vllm, sglang, ollama, llama_cpp}
use spark_dashboard.Detection.Commands.{names_vllm}
use spark_dashboard.Detection.Launch.{llamacpp_launch, served_model}

-- The host and the port that the flags give.
pub record Address : Type 0 where
  pub host : Option String
  pub port : Option String

-- An argument that is not a flag followed by its value.
unfoldable pub take_inline : String → Address → Address
unfolding strip_prefix
take_inline arg a = elim (strip_prefix "--port=" arg) [
  | some value ↦ record a { port = some value }
  | none ↦ elim (strip_prefix "--host=" arg) [
    | some value ↦ record a { host = some value }
    | none ↦ a
  ]
]

-- The loop over the arguments.
unfoldable pub scan_address : Address → List String → Address
unfolding take_inline
scan_address a [] = a
scan_address a (arg ∷ []) = if arg == "--port" || arg == "--host" then a else take_inline arg a
scan_address a (arg ∷ next ∷ args) = elim (arg == "--port") [
  | true ↦ scan_address (record a { port = some next }) args
  | false ↦ elim (arg == "--host") [
    | true ↦ scan_address (record a { host = some next }) args
    | false ↦ scan_address (take_inline arg a) (next ∷ args)
  ]
]

-- The port of the default endpoint.
abbrev pub port_of : Option (String × String) → String
port_of none = "8000"
port_of (some (before, port)) = port

unfoldable pub endpoint_at : Address → String → String
unfolding append rsplit_once
endpoint_at a default_endpoint =
    let host = or_default "localhost" a.host in
    let port = or_default (port_of (rsplit_once (is_char b':') default_endpoint)) a.port in
    if is_some a.port || is_some a.host
    then append "http://"
        (append (if host == "0.0.0.0" then "localhost" else host) (append ":" port))
    else default_endpoint

unfoldable pub parse_endpoint_from_args : List String → String → String
unfolding scan_address endpoint_at
parse_endpoint_from_args args default_endpoint =
    endpoint_at (scan_address (record { host = none; port = none }) args) default_endpoint

-- A value that may name a model.
unfoldable pub model_value : Option String → Option String
unfolding starts_with
model_value none = none
model_value (some value) =
    if not (is_empty_text value) && not (starts_with value "-") then some value else none

unfoldable pub inline_value : Option String → Option String
inline_value none = none
inline_value (some value) = if is_empty_text value then none else some value

-- The first value of a flag.
unfoldable pub flag_model : String → List String → Option String
unfolding append strip_prefix model_value inline_value
flag_model flag [] = none
flag_model flag (arg ∷ args) =
    or_else
      (if arg == flag
        then model_value (get_elem? args 0)
        else inline_value (strip_prefix (append flag "=") arg))
      (flag_model flag args)

-- The argument after the first `serve`.
unfoldable pub after_serve : List String → Option String
unfolding model_value
after_serve [] = none
after_serve (arg ∷ args) =
    let later = after_serve args in if arg == "serve" then model_value (get_elem? args 0) else later

unfoldable pub positional_model : List String → Option String
unfolding after_serve names_vllm
positional_model [] = none
positional_model (arg ∷ args) =
    or_else (if names_vllm arg then after_serve args else none) (positional_model args)

unfoldable pub parse_model_from_args : List String → Option String
unfolding flag_model positional_model
parse_model_from_args args = or_else (flag_model "--model" args) (positional_model args)

unfoldable pub parse_sglang_model_parts : List String → Option String
unfolding flag_model after_serve
parse_sglang_model_parts args = or_else (flag_model "--model-path" args) (
    or_else (flag_model "--model" args)
      (or_else (flag_model "--served-model-name" args) (after_serve args)))

-- The two passes over the words of a command.
unfoldable pub parse_model_from_command_str : String → Option String
unfolding parse_model_from_args split_whitespace
parse_model_from_command_str cmd = parse_model_from_args (split_whitespace cmd)

unfoldable pub parse_sglang_model_from_command_str : String → Option String
unfolding parse_sglang_model_parts split_whitespace
parse_sglang_model_from_command_str cmd = parse_sglang_model_parts (split_whitespace cmd)

unfoldable pub parse_model_for : EngineType → String → Option String
unfolding parse_model_from_command_str parse_sglang_model_from_command_str llamacpp_launch
    served_model split_whitespace
parse_model_for vllm cmd = parse_model_from_command_str cmd
parse_model_for sglang cmd = parse_sglang_model_from_command_str cmd
parse_model_for ollama cmd = none
parse_model_for llama_cpp cmd = served_model (llamacpp_launch (split_whitespace cmd) (λ name. none))

-- A text that is a port.
unfoldable pub port_value : Option String → Option String
unfolding parse_uint
port_value none = none
port_value (some value) = if is_some (parse_uint (2 ^ 16) value) then some value else none

unfoldable pub flag_port : List String → Option String
unfolding strip_prefix port_value
flag_port [] = none
flag_port (arg ∷ args) =
    or_else
      (if arg == "--port"
        then port_value (get_elem? args 0)
        else port_value (strip_prefix "--port=" arg))
      (flag_port args)

unfoldable pub parse_port_from_command_str : String → Option String
unfolding flag_port split_whitespace
parse_port_from_command_str cmd = flag_port (split_whitespace cmd)

-- `env_var_in`, of entries that are texts
unfoldable pub env_var_in : List String → String → Option String
unfolding strip_prefix
env_var_in [] name = none
env_var_in (entry ∷ entries) name =
    or_else (bind_some (strip_prefix name entry) (strip_prefix "=")) (env_var_in entries name)

abbrev pub tail : List String → List String
tail [] = []
tail (cell ∷ row) = row

-- A row of `docker top`: the command, and the PID.
unfoldable pub top_row_command : List String → String
unfolding join_words
top_row_command row = join_words (tail row)

unfoldable pub parse_pid_from_top_row : List String → Option ℕ
unfolding parse_uint trim
parse_pid_from_top_row [] = none
parse_pid_from_top_row (cell ∷ row) = parse_uint (2 ^ 32) (trim cell)
