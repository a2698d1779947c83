-- ===== src/Engine/Types.antt =====
-- The types of engines/mod.rs, and the trait that every engine adapter implements.
use spark_dashboard.Prelude.{
  ℕ, String, ◌≡◌, ◌↔◌, Bool, true, false, ◌&&◌, Option, none, arith, Eq, nat_beq, ◌==◌, string_eq,
}

pub data EngineType : Type 0 where
  vllm sglang ollama llama_cpp : EngineType

pub data DeploymentMode : Type 0 where
  docker native : DeploymentMode

pub data EngineStatus : Type 0 where
  running loading stopped : EngineStatus
  error : String → EngineStatus

pub data ModelMetadataError : Type 0 where
  auth_required unavailable : ModelMetadataError

pub data MetricsError : Type 0 where
  auth_required : MetricsError

-- `status == EngineStatus::Running`, and the same for `Stopped`
abbrev pub is_running : EngineStatus → Bool
is_running running = true
is_running _ = false

abbrev pub is_stopped : EngineStatus → Bool
is_stopped stopped = true
is_stopped _ = false

-- `matches!(health, EngineStatus::Running | EngineStatus::Loading)`
abbrev pub is_up : EngineStatus → Bool
is_up running = true
is_up loading = true
is_up _ = false

abbrev pub type_index : EngineType → ℕ
type_index vllm = 0
type_index sglang = 1
type_index ollama = 2
type_index llama_cpp = 3

abbrev pub type_beq : EngineType → EngineType → Bool
type_beq a b = nat_beq (type_index a) (type_index b)

pub type_beq_iff : (a b : EngineType) → (type_beq a b ≡ true) ↔ (a ≡ b)
type_beq_iff a b = ground arith

instance abbrev pub type_eq : Eq EngineType
type_eq = record { beq = type_beq; beq_iff = type_beq_iff }

-- The key of the engine map.
abbrev pub Key : Type 0
Key = EngineType × String

abbrev pub key_beq : Key → Key → Bool
key_beq (a, s) (b, t) = a == b && s == t

pub key_beq_iff : (a b : Key) → (key_beq a b ≡ true) ↔ (a ≡ b)
key_beq_iff (a, s) (b, t) = ground (arith, type_beq_iff a b, string_eq.beq_iff s t)

instance abbrev pub key_eq : Eq Key
key_eq = record { beq = key_beq; beq_iff = key_beq_iff }

pub record ModelInfo : Type 0 where
  pub name : String
  pub parameter_size : Option String
  pub quantization : Option String
  pub precision : Option String
  pub tensor_type : Option String
  pub model_type : Option String
  pub pipeline_tag : Option String

pub record ModelResolution : Type 0 where
  pub model : Option ModelInfo
  pub metadata_error : Option ModelMetadataError

unfoldable pub named : String → ModelInfo
named name = record {
  name = name;
  parameter_size = none;
  quantization = none;
  precision = none;
  tensor_type = none;
  model_type = none;
  pipeline_tag = none;
}

pub record LoadedModel : Type 0 where
  pub name : String
  pub parameter_size : Option String
  pub quantization : Option String
  pub size_bytes : ℕ
  pub vram_bytes : ℕ
  pub context_length : Option ℕ
  pub expires_at : Option String
