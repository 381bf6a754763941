-- ===== src/EnvVar.antt =====
-- internal/envvar/resolver.go: parameters that are filled from the environments of containers. What Docker answers for a
-- container is a parameter.
pub mod Precedence
pub mod Examples
use kariz.Prelude.{
  String, Bool, true, false, Option, none, some, List, [], ◌∷◌, ◌=ₛ◌, if◌then◌else◌,
}
use kariz.Models.Errors.{Error, outside, lit, shown, Message, error_text}
use kariz.Models.Command.{Value, text, ParameterDefinition, EnvVarMapping}
use kariz.Database.{Result, ok, err}
use kariz.Validator.{Params, lookup}

-- `Error()` of an `EnvVarResolutionError`, from its parameter's name and its reason; the two other fields only
-- tell where the value was looked for.
abbrev pub resolution_error : String → EnvVarMapping → Message → Error
resolution_error name mapping reason =
    outside (lit "env var resolution failed for parameter " ∷ shown name ∷ lit ": " ∷ reason)

abbrev pub Environment : Type 0
Environment = List (String × String)

unfoldable pub env_lookup : String → Environment → Option String
env_lookup name [] = none
env_lookup name ((k, v) ∷ env) =
    let rest = env_lookup name env in if k =ₛ name then some v else rest

-- Writing a key of the map.
unfoldable pub set : String → Value → Params → Params
set name v [] = (name, v) ∷ []
set name v ((k, u) ∷ params) =
    let rest = set name v params in if k =ₛ name then (k, v) ∷ params else (k, u) ∷ rest

module _ (inspect : String → Result Environment) where
  abbrev pub found : String → EnvVarMapping → Option String → Result Value
  found name mapping none =
      err (resolution_error name mapping (lit "env var not found on container" ∷ []))
  found name mapping (some v) = ok (text v)

  abbrev pub inspected : String → EnvVarMapping → Result Environment → Result Value
  inspected name mapping (err e) =
      err (resolution_error name mapping (lit "failed to inspect container: " ∷ error_text e))
  inspected name mapping (ok env) = found name mapping (env_lookup mapping.env_var_name env)

  abbrev pub from_container : String → EnvVarMapping → Result Value
  from_container name mapping = inspected name mapping (inspect mapping.source_container)

  -- What the loop does for one parameter: none where it writes nothing.
  abbrev pub mapped : String → Option EnvVarMapping → Option Value → Option (Result Value)
  mapped name none user = none
  mapped name (some mapping) (some v) = none
  mapped name (some mapping) none = some (from_container name mapping)

  abbrev pub written : String → Option (Result Value) → Params → Result Params
  written name none resolved = ok resolved
  written name (some (ok v)) resolved = ok (set name v resolved)
  written name (some (err e)) resolved = err e

  abbrev pub then_resolve : Result Params → (Params → Result Params) → Result Params
  then_resolve (ok p) f = f p
  then_resolve (err e) f = err e

  unfoldable pub resolve_all : List ParameterDefinition → Params → Params → Result Params
  resolve_all [] user resolved = ok resolved
  resolve_all (def ∷ schema) user resolved =
      then_resolve
        (written def.name (mapped def.name def.env_var_mapping (lookup def.name user)) resolved)
        (resolve_all schema user)

  unfoldable pub resolve_params : List ParameterDefinition → Params → Result Params
  resolve_params schema user = resolve_all schema user user
