-- ===== src/Models/Command.antt =====
-- internal/models/command.go: what a command of the catalog says about its parameters and its execution.
use kariz.Prelude.{ℕ, String, Bool, true, false, Option, List, ℤ, pos}
use kariz.Models.User.{Role}

-- `other` is any other text in the field.
pub data ExecutionMode : Type 0 where
  create exec logs : ExecutionMode
  other : String → ExecutionMode

pub data ParameterType : Type 0 where
  of_string of_number of_boolean of_enum : ParameterType
  unsupported : String → ParameterType

-- What JSON decodes into an `interface{}`. A number is a float64, kept as its 64 bits; `composite` is
-- an array or an object, by its text.
pub data Value : Type 0 where
  null : Value
  text : String → Value
  number : ℕ → Value
  boolean : Bool → Value
  composite : String → Value

pub record EnvVarMapping : Type 0 where
  pub source_container : String
  pub env_var_name : String

pub record ValidationRules : Type 0 where
  pub pattern : String
  pub min : Option ℕ
  pub max : Option ℕ
  pub enum_values : List String
  pub max_length : Option ℤ

-- `default_value` is `null` where there is none.
pub record ParameterDefinition : Type 0 where
  pub name : String
  pub kind : ParameterType
  pub required : Bool
  pub default_value : Value
  pub description : String
  pub validation : Option ValidationRules
  pub env_var_mapping : Option EnvVarMapping

pub record ResourceLimits : Type 0 where
  pub cpu_shares : Option ℤ
  pub memory_mb : Option ℤ
  pub cpu_count : Option ℤ

pub record VolumeMount : Type 0 where
  pub host_path : String
  pub container_path : String
  pub read_only : Bool

pub record LogOptions : Type 0 where
  pub tail_lines : ℤ
  pub follow : Bool
  pub timestamps : Bool

abbrev pub default_log_options : LogOptions
default_log_options = record { tail_lines = pos 100; follow = true; timestamps = false }

pub record ArtifactDeclare : Type 0 where
  pub container_path : String
  pub label : String

pub record ArtifactDestConfig : Type 0 where
  pub kind : String
  pub bucket : String
  pub path_prefix : String
  pub endpoint : String
  pub credential_ref : String
  pub region : String

pub record CommandEntry : Type 0 where
  pub id : String
  pub name : String
  pub description : String
  pub category : String
  pub docker_image : String
  pub command_string : String
  pub parameter_schema : List ParameterDefinition
  pub allowed_roles : List Role
  pub resource_limits : ResourceLimits
  pub volumes : List VolumeMount
  pub timeout_seconds : ℤ
  pub allow_concurrent : Bool
  pub execution_mode : ExecutionMode
  pub target_container : String
  pub log_options : Option LogOptions
  pub artifacts : List ArtifactDeclare
  pub artifact_destination : Option ArtifactDestConfig
  pub is_active : Bool
  pub version : ℕ
  pub created_at : ℕ
  pub updated_at : ℕ

pub record CreateCommandInput : Type 0 where
  pub name : String
  pub description : String
  pub category : String
  pub docker_image : String
  pub command_string : String
  pub parameter_schema : List ParameterDefinition
  pub allowed_roles : List Role
  pub resource_limits : ResourceLimits
  pub volumes : List VolumeMount
  pub timeout_seconds : ℤ
  pub allow_concurrent : Bool
  pub execution_mode : ExecutionMode
  pub target_container : String
  pub log_options : Option LogOptions
  pub artifacts : List ArtifactDeclare
  pub artifact_destination : Option ArtifactDestConfig

-- A field that is none is nil: it was not given.
pub record UpdateCommandInput : Type 0 where
  pub name : Option String
  pub description : Option String
  pub category : Option String
  pub docker_image : Option String
  pub command_string : Option String
  pub parameter_schema : Option (List ParameterDefinition)
  pub allowed_roles : Option (List Role)
  pub resource_limits : Option ResourceLimits
  pub volumes : Option (List VolumeMount)
  pub timeout_seconds : Option ℤ
  pub allow_concurrent : Option Bool
  pub execution_mode : Option ExecutionMode
  pub target_container : Option String
  pub log_options : Option LogOptions
  pub artifacts : Option (List ArtifactDeclare)
  pub artifact_destination : Option ArtifactDestConfig

pub record CommandFilter : Type 0 where
  pub category : String
  pub is_active : Option Bool
  pub roles : List Role
  pub page : ℤ
  pub page_size : ℤ
  pub search : String
