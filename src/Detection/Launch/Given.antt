-- ===== src/Detection/Launch/Given.antt =====
-- engines/detector.rs: a launch is read as it was given.
use spark_dashboard.Prelude.{
  String, ◌≡◌, ◌∙◌, refl, ap, sym, subst, fun_ext, Bool, true, Option, none, some, List, [], ◌∷◌,
  inl, inr, All, any, arith, ◌==◌, string_eq, if◌then◌else◌, Bool-cases, lookup, insert,
  lookup-insert, or_else,
}
use spark_dashboard.Text.{append, starts_with, split_first, replace_char, strip_prefix}
use spark_dashboard.Detection.Launch.{
  LlamaCppSetting, host, port, alias, hf_repo, docker_repo, model, setting_eq, env_var, read_arg,
  Flags, scan_args, not_blank, read_setting, launch_of, llamacpp_launch,
}

-- One thing that is said on a command line: a flag with its value after it, a flag with its value after
-- a `=`, or an argument that is no flag.
pub data Given : Type 0 where
  separate : LlamaCppSetting → String → String → Given
  inline : LlamaCppSetting → String → String → Given
  other : String → Given

abbrev pub words : Given → List String → List String
words (separate setting flag value) rest = flag ∷ value ∷ rest
words (inline setting flag value) rest = append flag (append "=" value) ∷ rest
words (other text) rest = text ∷ rest

abbrev pub command_line : List Given → List String
command_line [] = []
command_line (g ∷ given) = words g (command_line given)

-- A setting's flags as they may be spelled: in a long one an underscore may stand for a dash.
abbrev pub spellings : LlamaCppSetting → List String
spellings host = "--host" ∷ []
spellings port = "--port" ∷ []
spellings alias = "-a" ∷ "--alias" ∷ []
spellings hf_repo = "-hf" ∷ "-hfr" ∷ "--hf-repo" ∷ "--hf_repo" ∷ []
spellings docker_repo = "-dr" ∷ "--docker-repo" ∷ "--docker_repo" ∷ []
spellings model = "-m" ∷ "--model" ∷ []

abbrev pub is_flag_of : LlamaCppSetting → String → Bool
is_flag_of setting flag = any (λ f. f == flag) (spellings setting)

-- The flags are the settings' in one of their spellings, a long one where the value stands after a
-- `=`, and the other arguments are read as no flag.
abbrev pub IsGiven : Given → Type 0
IsGiven (separate setting flag value) = is_flag_of setting flag ≡ true
IsGiven (inline setting flag value) =
    (is_flag_of setting flag ≡ true) × (starts_with flag "--" ≡ true)
IsGiven (other text) = (read_arg text).0 ≡ none

abbrev pub said : LlamaCppSetting → Given → Option String
said s (separate setting flag value) = if setting == s then some value else none
said s (inline setting flag value) = if setting == s then some value else none
said s (other text) = none

-- What is said last of a setting.
abbrev pub last_said : LlamaCppSetting → List Given → Option String
last_said s [] = none
last_said s (g ∷ given) = or_else (last_said s given) (said s g)

any_All :
    (P : String → Type 0) (fs : List String) (flag : String)
    → All P fs
    → any (λ f. f == flag) fs ≡ true
    → P flag
any_All P [] flag all h = cc
any_All P (f ∷ fs) flag all h = elim (Bool-cases (f == flag)) [
  | inl same ↦ subst P ((string_eq.beq_iff f flag).0 same) all.0
  | inr differ ↦ any_All P fs flag all.1 (ground arith)
]

-- How a flag of a setting is read that stands by itself.
abbrev ReadAlone : LlamaCppSetting → String → Type 0
ReadAlone s f = read_arg f ≡ (some s, none)

All-ReadAlone : (s : LlamaCppSetting) → All (ReadAlone s) (spellings s)
unfolding read_arg split_first starts_with replace_char strip_prefix append
All-ReadAlone host = (refl, tt)
All-ReadAlone port = (refl, tt)
All-ReadAlone alias = (refl, (refl, tt))
All-ReadAlone hf_repo = (refl, (refl, (refl, (refl, tt))))
All-ReadAlone docker_repo = (refl, (refl, (refl, tt)))
All-ReadAlone model = (refl, (refl, tt))

-- How a long flag is read with its value after a `=`.
abbrev ReadInline : LlamaCppSetting → String → String → Type 0
ReadInline s value f =
    starts_with f "--" ≡ true → read_arg (append f (append "=" value)) ≡ (some s, some value)

All-ReadInline : (s : LlamaCppSetting) (value : String) → All (ReadInline s value) (spellings s)
unfolding read_arg split_first starts_with replace_char strip_prefix append
All-ReadInline host v = (λ h. refl, tt)
All-ReadInline port v = (λ h. refl, tt)
All-ReadInline alias v = ((λ h. cc), ((λ h. refl), tt))
All-ReadInline hf_repo v = ((λ h. cc), ((λ h. cc), ((λ h. refl), ((λ h. refl), tt))))
All-ReadInline docker_repo v = ((λ h. cc), ((λ h. refl), ((λ h. refl), tt)))
All-ReadInline model v = ((λ h. cc), ((λ h. refl), tt))

-- The settings after one more thing is said.
abbrev after : Given → Flags → Flags
after (separate s flag value) found = insert s value found
after (inline s flag value) found = insert s value found
after (other text) found = found

scan_args-nil : (found : Flags) → scan_args found [] ≡ found
unfolding scan_args
scan_args-nil found = refl

scan_args-words :
    (g : Given) (rest : List String) (found : Flags)
    → IsGiven g
    → scan_args found (words g rest) ≡ scan_args (after g found) rest
unfolding scan_args
scan_args-words (separate s flag value) rest found h =
    ground (arith, any_All (ReadAlone s) (spellings s) flag (All-ReadAlone s) h)
scan_args-words (inline s flag value) [] found h =
    ground (arith, any_All (ReadInline s value) (spellings s) flag (All-ReadInline s value) h.0 h.1)
scan_args-words (inline s flag value) (next ∷ rest) found h =
    ground (arith, any_All (ReadInline s value) (spellings s) flag (All-ReadInline s value) h.0 h.1)
scan_args-words (other text) [] found h = ground (arith, h)
scan_args-words (other text) (next ∷ rest) found h = ground (arith, h)

lookup-after :
    (g : Given) (s : LlamaCppSetting) (found : Flags)
    → lookup s (after g found) ≡ or_else (said s g) (lookup s found)
lookup-after (separate t flag value) s found = ground (arith, lookup-insert t s value found)
lookup-after (inline t flag value) s found = ground (arith, lookup-insert t s value found)
lookup-after (other text) s found = refl

or_else_assoc : {A : Type 0} (x y z : Option A) → or_else (or_else x y) z ≡ or_else x (or_else y z)
or_else_assoc none y z = refl
or_else_assoc (some a) y z = refl

lookup-scan_args :
    (given : List Given) (s : LlamaCppSetting) (found : Flags)
    → All IsGiven given
    → lookup s (scan_args found (command_line given)) ≡ or_else (last_said s given) (lookup s found)
lookup-scan_args [] s found h = rw (scan_args-nil found) refl
lookup-scan_args (g ∷ given) s found h = rw (scan_args-words g (command_line given) found h.0) (
    lookup-scan_args given s (after g found) h.1
    ∙ rw (lookup-after g s found)
        (sym (or_else_assoc (last_said s given) (said s g) (lookup s found))))

-- What a launch has for a setting: what is said last of it on the command line, else its variable of
-- the environment, and nothing where that is blank.
abbrev pub meant : List Given → (String → Option String) → LlamaCppSetting → Option String
meant given env s = not_blank (or_else (last_said s given) (env (env_var s)))

or_else-none : {A : Type 0} (x : Option A) → or_else x none ≡ x
or_else-none none = refl
or_else-none (some a) = refl

read_setting-meant :
    (given : List Given) (env : String → Option String) (s : LlamaCppSetting)
    → All IsGiven given
    → read_setting (scan_args [] (command_line given)) env s ≡ meant given env s
unfolding read_setting lookup
read_setting-meant given env s h =
    ap (λ o. not_blank (or_else o (env (env_var s))))
      (lookup-scan_args given s [] h ∙ or_else-none (last_said s given))

-- A launch is read as it was given, in any order and with other arguments between: each setting is what
-- its flags say of it last, `--hf_repo` and `--docker_repo` with an underscore among them, and else its
-- variable of the environment; a blank one is none.
pub llamacpp_launch-command_line :
    (given : List Given) (env : String → Option String)
    → All IsGiven given
    → llamacpp_launch (command_line given) env ≡ launch_of (meant given env)
unfolding llamacpp_launch
llamacpp_launch-command_line given env h =
    ap launch_of (fun_ext (λ s. read_setting-meant given env s h))
