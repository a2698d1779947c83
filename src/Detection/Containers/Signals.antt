-- ===== src/Detection/Containers/Signals.antt =====
-- engines/detector.rs: which of a container's signals decide.
use spark_dashboard.Prelude.{
  ◌⊎◌, ◌∙◌, ap, Bool, String, ◌≡◌, true, false, none, some, List, [], ◌∷◌, inl, inr, arith, any,
  string_eq, Bool-cases, Option-cases,
}
use spark_dashboard.Text.{contains, split_whitespace}
use spark_dashboard.Engine.Types.{EngineType, vllm, sglang, ollama, llama_cpp}
use spark_dashboard.Detection.Commands.{engine_of_command}
use spark_dashboard.Detection.Containers.{
  ContainerClass, is_ollama_image, is_llamacpp_image, class_of_image, class_of_command, named,
  class_of_names, classify_container,
}

-- Neither the image nor the command names an engine.
abbrev pub IsUnnamed : String → String → Type 0
IsUnnamed image command =
    (is_ollama_image image ≡ false)
    × (is_llamacpp_image image ≡ false)
    × (contains image "vllm" ≡ false)
    × (contains image "sglang" ≡ false)
    × (engine_of_command (split_whitespace command) ≡ none)
    × (contains command "vllm" ≡ false)
    × (contains command "sglang" ≡ false)

-- A name that an engine's weak signal rests on.
abbrev pub names_of : EngineType → List String
names_of vllm = "vllm" ∷ []
names_of sglang = "sglang" ∷ []
names_of ollama = "ollama" ∷ []
names_of llama_cpp = "llama.cpp" ∷ "llama-cpp" ∷ "llamacpp" ∷ "llama-server" ∷ []

-- The image names the engine.
abbrev pub image_says : EngineType → String → Bool
image_says vllm image = contains image "vllm"
image_says sglang image = contains image "sglang"
image_says ollama image = is_ollama_image image
image_says llama_cpp image = is_llamacpp_image image

-- The command mentions the engine.
abbrev pub command_mentions : EngineType → String → Bool
command_mentions vllm command = contains command "vllm"
command_mentions sglang command = contains command "sglang"
command_mentions ollama command = false
command_mentions llama_cpp command = false

-- The image or the command says that the container runs the engine: the image names it, or the command
-- launches it or mentions it.
abbrev pub IsSaid : EngineType → String → String → Type 0
IsSaid engine_type image command =
    (image_says engine_type image ≡ true)
    ⊎ (engine_of_command (split_whitespace command) ≡ some engine_type)
    ⊎ (command_mentions engine_type command ≡ true)

class_of_image-says :
    (image : String) (c : ContainerClass)
    → class_of_image image ≡ some c
    → image_says c.engine_type image ≡ true
unfolding class_of_image
class_of_image-says image c h = ground arith

class_of_command-says :
    (command : String) (c : ContainerClass)
    → class_of_command command ≡ some c
    → (engine_of_command (split_whitespace command) ≡ some c.engine_type)
      ⊎ (command_mentions c.engine_type command ≡ true)
unfolding class_of_command
class_of_command-says command c h =
    elim (Option-cases (engine_of_command (split_whitespace command))) [
      | inr (engine_type, launched) ↦ inl (ground (arith, launched))
      | inl nothing ↦ inr (ground (arith, nothing))
    ]

class_of_image-strong :
    (image : String) (c : ContainerClass) → class_of_image image ≡ some c → c.strong_signal ≡ true
unfolding class_of_image
class_of_image-strong image c h = ground arith

class_of_image-none :
    (image : String)
    → class_of_image image ≡ none
    → contains image "vllm" ≡ false
    → (is_ollama_image image ≡ false)
      × (is_llamacpp_image image ≡ false)
      × (contains image "sglang" ≡ false)
unfolding class_of_image
class_of_image-none image h v = ground arith

class_of_command-strong :
    (command : String) (c : ContainerClass)
    → class_of_command command ≡ some c
    → c.strong_signal ≡ true
unfolding class_of_command
class_of_command-strong command c h = ground arith

class_of_command-none :
    (command : String)
    → class_of_command command ≡ none
    → (engine_of_command (split_whitespace command) ≡ none)
      × (contains command "vllm" ≡ false)
      × (contains command "sglang" ≡ false)
unfolding class_of_command
class_of_command-none command h = ground arith

module _ (to_lowercase : String → String) where
  class_of_names-weak :
      (names : List String) (c : ContainerClass)
      → class_of_names to_lowercase names ≡ some c
      → (c.strong_signal ≡ false) × (any (named to_lowercase names) (names_of c.engine_type) ≡ true)
  unfolding class_of_names
  class_of_names-weak names c h = ground arith

  -- A class that is not trusted is that of a container of which neither the image nor the command names
  -- any engine, while one of its names has one of the engine's.
  pub classify_container-weak :
      (names : List String) (image command : String) (c : ContainerClass)
      → classify_container to_lowercase names image command ≡ some c
      → c.strong_signal ≡ false
      → IsUnnamed image command × (any (named to_lowercase names) (names_of c.engine_type) ≡ true)
  unfolding classify_container
  classify_container-weak names image command c h w = elim (Option-cases (class_of_image image)) [
    | inr (d, of_image) ↦
        let same : d ≡ c = ground (arith, of_image) in
        ground (arith, class_of_image-strong image d of_image)
    | inl no_image ↦ elim (Option-cases (class_of_command command)) [
      | inr (d, of_command) ↦ ground (arith, no_image, class_of_command-strong command d of_command)
      | inl no_command ↦ elim (Bool-cases (contains image "vllm")) [
        | inl tie ↦ ground arith
        | inr no_tie ↦
            let (_, found) = class_of_names-weak names c (ground (arith, no_image, no_command)) in
            let (o, l, s) = class_of_image-none image no_image no_tie in
            let (e, v, s2) = class_of_command-none command no_command in
            ((o, l, no_tie, s, e, v, s2), found)
      ]
    ]
  ]

  -- A trusted class is one that the image or the command says.
  pub classify_container-says :
      (names : List String) (image command : String) (c : ContainerClass)
      → classify_container to_lowercase names image command ≡ some c
      → c.strong_signal ≡ true
      → IsSaid c.engine_type image command
  unfolding classify_container
  classify_container-says names image command c h w = elim (Option-cases (class_of_image image)) [
    | inr (d, of_image) ↦
        let is : d ≡ c = ground (arith, of_image) in
        inl (class_of_image-says image c (of_image ∙ ap some is))
    | inl no_image ↦ elim (Option-cases (class_of_command command)) [
      | inr (d, of_command) ↦
          let is : d ≡ c = ground (arith, no_image, of_command) in
          inr (class_of_command-says command c (of_command ∙ ap some is))
      | inl no_command ↦ elim (Bool-cases (contains image "vllm")) [
        | inl tie ↦ inl (ground (arith, no_image, no_command))
        | inr no_tie ↦
            let (weak, _) = class_of_names-weak names c (ground (arith, no_image, no_command)) in
            ground arith
      ]
    ]
  ]

  -- A trusted class does not depend on the names: whatever a container with this image and this command
  -- is called, it has the same class.
  pub classify_container-strong :
      (names others : List String) (image command : String) (c : ContainerClass)
      → classify_container to_lowercase names image command ≡ some c
      → c.strong_signal ≡ true
      → classify_container to_lowercase others image command ≡ some c
  unfolding classify_container
  classify_container-strong names others image command c h w =
      elim (Option-cases (class_of_image image)) [
        | inr (d, of_image) ↦ ground (arith, of_image)
        | inl no_image ↦ elim (Option-cases (class_of_command command)) [
          | inr (d, of_command) ↦ ground (arith, no_image, of_command)
          | inl no_command ↦ elim (Bool-cases (contains image "vllm")) [
            | inl tie ↦ ground (arith, no_image, no_command)
            | inr no_tie ↦
                let (weak, _) =
                  class_of_names-weak names c (ground (arith, no_image, no_command)) in
                ground arith
          ]
        ]
      ]
