-- ===== src/EnvVar/Examples.antt =====
-- Tests and instances for internal/envvar/resolver.go.
use kariz.Prelude.{◌≡◌, refl, String, true, none, some, [], ◌∷◌, ◌=ₛ◌, if◌then◌else◌}
use kariz.Models.Errors.{outside, lit}
use kariz.Models.Command.{of_string, null, text, ParameterDefinition}
use kariz.Database.{Result, ok, err}
use kariz.Validator.{lookup}
use kariz.EnvVar.{Environment, env_lookup, set, resolve_all, resolve_params}
use kariz.EnvVar.Precedence.{resolve_params-keeps}

abbrev inspect : String → Result Environment
inspect container =
    if container =ₛ "db"
    then ok (("PORT", "5432") ∷ [])
    else err (outside (lit "no such container" ∷ []))

abbrev from_db : String → ParameterDefinition
from_db name = record {
  name = name;
  kind = of_string;
  required = true;
  default_value = null;
  description = "";
  validation = none;
  env_var_mapping = some (record { source_container = "db"; env_var_name = "PORT" });
}

resolved_port :
    resolve_params inspect (from_db "port" ∷ from_db "host" ∷ []) (("host", text "h") ∷ [])
    ≡ ok (("host", text "h") ∷ ("port", text "5432") ∷ [])
unfolding resolve_params resolve_all env_lookup set lookup
resolved_port = refl

resolve_params-keeps_example :
    lookup "host" (("host", text "h") ∷ ("port", text "5432") ∷ []) ≡ some (text "h")
unfolding lookup
resolve_params-keeps_example =
    resolve_params-keeps inspect (from_db "port" ∷ from_db "host" ∷ []) "host" (text "h")
      (("host", text "h") ∷ []) (("host", text "h") ∷ ("port", text "5432") ∷ []) refl resolved_port
