-- ===== src/Detection/Launch.antt =====
-- engines/detector.rs: how a llama-server's command line and environment are read.
pub mod Given
pub mod Listening
use spark_dashboard.Prelude.{
  ℕ, zero, suc, ◌^◌, String, ◌≡◌, ◌↔◌, arith, Bool, true, false, not, ◌&&◌, ◌||◌, Option, none,
  some, List, [], ◌∷◌, map, any, find, filterb, length, Eq, ◌==◌, nat_beq, string_eq, nat_eq,
  if◌then◌else◌, Assoc, lookup, insert, bind_some, or_else,
}
use spark_dashboard.Text.{
  starts_with, ends_with, contains, split_first, split, is_char, replace_char, trim, is_empty_text,
  parse_uint,
}
use Prim.Native.String.{compare}
use Prim.Native.Nat.{Ordering}

pub data LlamaCppSetting : Type 0 where
  host port alias hf_repo docker_repo model : LlamaCppSetting

abbrev pub setting_index : LlamaCppSetting → ℕ
setting_index host = 0
setting_index port = 1
setting_index alias = 2
setting_index hf_repo = 3
setting_index docker_repo = 4
setting_index model = 5

abbrev pub setting_beq : LlamaCppSetting → LlamaCppSetting → Bool
setting_beq a b = nat_beq (setting_index a) (setting_index b)

pub setting_beq_iff : (a b : LlamaCppSetting) → (setting_beq a b ≡ true) ↔ (a ≡ b)
setting_beq_iff a b = ground arith

instance abbrev pub setting_eq : Eq LlamaCppSetting
setting_eq = record { beq = setting_beq; beq_iff = setting_beq_iff }

abbrev pub all_settings : List LlamaCppSetting
all_settings = host ∷ port ∷ alias ∷ hf_repo ∷ docker_repo ∷ model ∷ []

abbrev pub flags : LlamaCppSetting → List String
flags host = "--host" ∷ []
flags port = "--port" ∷ []
flags alias = "-a" ∷ "--alias" ∷ []
flags hf_repo = "-hf" ∷ "-hfr" ∷ "--hf-repo" ∷ []
flags docker_repo = "-dr" ∷ "--docker-repo" ∷ []
flags model = "-m" ∷ "--model" ∷ []

abbrev pub env_var : LlamaCppSetting → String
env_var host = "LLAMA_ARG_HOST"
env_var port = "LLAMA_ARG_PORT"
env_var alias = "LLAMA_ARG_ALIAS"
env_var hf_repo = "LLAMA_ARG_HF_REPO"
env_var docker_repo = "LLAMA_ARG_DOCKER_REPO"
env_var model = "LLAMA_ARG_MODEL"

pub record LlamaCppLaunch : Type 0 where
  pub host : Option String
  pub port : Option ℕ
  pub alias : Option String
  pub hf_repo : Option String
  pub docker_repo : Option String
  pub model : Option String

-- `arg.split_once('=')`, of a long flag
abbrev pub inline_of : String × Option String → String → String × Option String
inline_of (flag, none) arg = (arg, none)
inline_of (flag, some value) arg = if starts_with flag "--" then (flag, some value) else (arg, none)

abbrev pub dashed : String → String
dashed flag = if starts_with flag "--" then replace_char b'_' "-" flag else flag

-- An argument as the setting that it is a flag of, and the value that it carries after a `=`.
unfoldable pub read_arg : String → Option LlamaCppSetting × Option String
unfolding split_first starts_with replace_char
read_arg arg =
    let (flag, inline) = inline_of (split_first (is_char b'=') arg) arg in
    (find (λ setting. any (λ f. f == dashed flag) (flags setting)) all_settings, inline)

abbrev pub Flags : Type 0
Flags = Assoc LlamaCppSetting String

-- The loop over the arguments. A flag without a value after it is followed by no more arguments.
unfoldable pub scan_args : Flags → List String → Flags
unfolding read_arg
scan_args found [] = found
scan_args found (arg ∷ []) = elim (read_arg arg).0 [
  | none ↦ found
  | some setting ↦ elim (read_arg arg).1 [ none ↦ found | some value ↦ insert setting value found ]
]
scan_args found (arg ∷ next ∷ args) = elim (read_arg arg).0 [
  | none ↦ scan_args found (next ∷ args)
  | some setting ↦ elim (read_arg arg).1 [
    | some value ↦ scan_args (insert setting value found) (next ∷ args)
    | none ↦ scan_args (insert setting next found) args
  ]
]

-- `filter(|value| !value.trim().is_empty())`
abbrev pub not_blank : Option String → Option String
not_blank none = none
not_blank (some value) = if is_empty_text (trim value) then none else some value

unfoldable pub read_setting : Flags → (String → Option String) → LlamaCppSetting → Option String
unfolding trim
read_setting found env setting = not_blank (or_else (lookup setting found) (env (env_var setting)))

-- The launch, from its settings.
unfoldable pub launch_of : (LlamaCppSetting → Option String) → LlamaCppLaunch
unfolding parse_uint trim
launch_of read = record {
  host = read host;
  port = bind_some (read port) (λ text. parse_uint (2 ^ 16) (trim text));
  alias = read alias;
  hf_repo = read hf_repo;
  docker_repo = read docker_repo;
  model = read model;
}

unfoldable pub llamacpp_launch : List String → (String → Option String) → LlamaCppLaunch
unfolding scan_args read_setting launch_of
llamacpp_launch args env = launch_of (read_setting (scan_args [] args) env)

-- The order of texts, by their characters.
abbrev pub text_before : String → String → Bool
text_before a b = elim (compare a b) [ Ordering.gt ↦ false | _ ↦ true ]

-- `min`: the first of the least.
abbrev pub least : List String → Option String
least [] = none
least (a ∷ texts) = elim (least texts) [
  | none ↦ some a
  | some b ↦ if text_before a b then some a else some b
]

unfoldable pub first_alias : String → Option String
unfolding split trim
first_alias aliases =
    least (filterb (λ a. not (is_empty_text a)) (map trim (split (is_char b',') aliases)))

unfoldable pub served_model : LlamaCppLaunch → Option String
unfolding first_alias
served_model launch =
    or_else (bind_some launch.alias first_alias)
      (or_else launch.hf_repo (or_else launch.docker_repo launch.model))

unfoldable pub is_tcp_host : String → Bool
unfolding ends_with contains
is_tcp_host h = not (is_empty_text h) && not (ends_with h ".sock") && not (contains h "/")

pub record LlamaCppListen : Type 0 where
  pub host : Option String
  pub port : ℕ
  pub fallback_ports : List ℕ

-- The port to try first and those to try after it; none for `--port 0`.
unfoldable pub listen_ports : Option ℕ → ℕ × ℕ → Option (ℕ × List ℕ)
listen_ports none (first, other) = some (first, other ∷ [])
listen_ports (some p) defaults = if p == 0 then none else some (p, [])

unfoldable pub first_tcp_host : String → Option String
unfolding split trim is_tcp_host
first_tcp_host hosts = find is_tcp_host (map trim (split (is_char b',') hosts))

unfoldable pub listen_on : Option String → Option (ℕ × List ℕ) → Option LlamaCppListen
listen_on h none = none
listen_on h (some (p, others)) = some (record { host = h; port = p; fallback_ports = others })

unfoldable pub listen_at : Option String → Option ℕ → ℕ × ℕ → Option LlamaCppListen
unfolding listen_ports first_tcp_host listen_on
listen_at none p default_ports = listen_on none (listen_ports p default_ports)
listen_at (some hosts) p default_ports =
    bind_some (first_tcp_host hosts) (λ h. listen_on (some h) (listen_ports p default_ports))

unfoldable pub listen : LlamaCppLaunch → ℕ × ℕ → Option LlamaCppListen
unfolding listen_at
listen launch default_ports = listen_at launch.host launch.port default_ports

abbrev pub ports : LlamaCppListen → List ℕ
ports l = l.port ∷ l.fallback_ports
