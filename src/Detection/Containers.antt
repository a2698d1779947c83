-- ===== src/Detection/Containers.antt =====
-- engines/detector.rs: which engine a container runs, by its image, its command and its names.
pub mod Signals
use spark_dashboard.Prelude.{
  ℕ, String, Bool, true, false, not, ◌&&◌, ◌||◌, Option, none, some, List, [], ◌∷◌, any, is_some,
  or_else, ◌==◌, string_eq, if◌then◌else◌,
}
use spark_dashboard.Text.{ends_with, contains, split_first, rsplit_once, is_char, split_whitespace}
use spark_dashboard.Engine.Types.{EngineType, vllm, sglang, ollama, llama_cpp}
use spark_dashboard.Detection.Commands.{engine_of_command}

pub record ContainerClass : Type 0 where
  pub engine_type : EngineType
  pub strong_signal : Bool

-- A tag is a `:` with no `/` after it.
abbrev pub without_tag : String → Option (String × String) → String
without_tag name none = name
without_tag name (some (before, after)) = if contains after "/" then name else before

unfoldable pub image_repository : String → String
unfolding split_first rsplit_once
image_repository image =
    let name = (split_first (is_char b'@') image).0 in
    without_tag name (rsplit_once (is_char b':') name)

unfoldable pub is_ollama_image : String → Bool
unfolding image_repository ends_with
is_ollama_image image =
    let repository = image_repository image in
    repository == "ollama/ollama" || ends_with repository "/ollama/ollama"

abbrev pub llamacpp_spellings : List String
llamacpp_spellings = "llama.cpp" ∷ "llama-cpp" ∷ "llamacpp" ∷ []

unfoldable pub is_llamacpp_image : String → Bool
unfolding image_repository contains
is_llamacpp_image image = any (contains (image_repository image)) llamacpp_spellings

abbrev pub strong : EngineType → Option ContainerClass
strong engine_type = some (record { engine_type = engine_type; strong_signal = true })

abbrev pub weak : EngineType → Option ContainerClass
weak engine_type = some (record { engine_type = engine_type; strong_signal = false })

-- The image alone.
unfoldable pub class_of_image : String → Option ContainerClass
unfolding is_ollama_image is_llamacpp_image contains
class_of_image image =
    if is_ollama_image image
    then strong ollama
    else if is_llamacpp_image image
    then strong llama_cpp
    else if contains image "vllm" && not (contains image "sglang")
    then strong vllm
    else if not (contains image "vllm") && contains image "sglang"
    then strong sglang
    else none

-- The launch form of the command, and else what it mentions.
unfoldable pub class_of_command : String → Option ContainerClass
unfolding engine_of_command split_whitespace contains
class_of_command command = elim (engine_of_command (split_whitespace command)) [
  | some engine_type ↦ strong engine_type
  | none ↦
      if not (contains command "vllm") && contains command "sglang"
      then strong sglang
      else if contains command "vllm"
      then strong vllm
      else none
]

-- `to_lowercase` is a parameter.
module _ (to_lowercase : String → String) where
  unfoldable pub named : List String → String → Bool
  unfolding contains
  named names needle = any (λ name. contains (to_lowercase name) needle) names

  unfoldable pub class_of_names : List String → Option ContainerClass
  unfolding named
  class_of_names names =
      if named names "vllm"
      then weak vllm
      else if named names "sglang"
      then weak sglang
      else if named names "ollama"
      then weak ollama
      else if any (named names) llamacpp_spellings || named names "llama-server"
      then weak llama_cpp
      else none

  unfoldable pub classify_container : List String → String → String → Option ContainerClass
  unfolding class_of_image class_of_command class_of_names contains
  classify_container names image command = or_else (class_of_image image) (
      or_else (class_of_command command)
        (if contains image "vllm" then strong vllm else class_of_names names))
