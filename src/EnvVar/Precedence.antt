-- ===== src/EnvVar/Precedence.antt =====
-- Which value a parameter has after `ResolveParams` of internal/envvar/resolver.go.
use kariz.Prelude.{
  ◌≡◌, String, Option, none, some, List, [], ◌∷◌, arith, eq_iff, ◌=ₛ◌, if◌then◌else◌, inl, inr,
  Option-cases,
}
use kariz.Models.Command.{Value, ParameterDefinition, EnvVarMapping}
use kariz.Database.{Result, ok, Result-cases}
use kariz.Validator.{Params, lookup}
use kariz.EnvVar.{Environment, from_container, set, mapped, written, resolve_all, resolve_params}

lookup-set :
    (j name : String) (v : Value) (params : Params)
    → lookup j (set name v params) ≡ (if name =ₛ j then some v else lookup j params)
unfolding lookup set
lookup-set j name v [] = ground arith
lookup-set j name v ((k, u) ∷ params) =
    ground (arith, lookup-set j name v params, eq_iff k name, eq_iff k j, eq_iff name j)

module _ (inspect : String → Result Environment) where
  -- One round of the loop leaves a parameter alone that the user gave.
  written-keeps :
      (name : String) (mapping : Option EnvVarMapping) (j : String) (v : Value)
      (user resolved next : Params)
      → lookup j user ≡ some v
      → lookup j resolved ≡ some v
      → written inspect name (mapped inspect name mapping (lookup name user)) resolved ≡ ok next
      → lookup j next ≡ some v
  written-keeps name none j v user resolved next given now h = ground (arith, now, h)
  written-keeps name (some m) j v user resolved next given now h =
      elim (Option-cases (lookup name user)) [
        | inl missing ↦ elim (Result-cases (from_container inspect name m)) [
          | inl (x, e) ↦
              ground (arith, lookup-set j name x resolved, eq_iff name j, missing, given, now, e, h)
          | inr (x, e) ↦ ground (arith, missing, e, h)
        ]
        | inr (u, e) ↦ ground (arith, e, now, h)
      ]

  resolve_all-keeps :
      (schema : List ParameterDefinition) (j : String) (v : Value) (user resolved next : Params)
      → lookup j user ≡ some v
      → lookup j resolved ≡ some v
      → resolve_all inspect schema user resolved ≡ ok next
      → lookup j next ≡ some v
  unfolding resolve_all
  resolve_all-keeps [] j v user resolved next given now h = ground (arith, now, h)
  resolve_all-keeps (def ∷ schema) j v user resolved next given now h =
      elim (Result-cases (
        written inspect def.name
          (mapped inspect def.name def.env_var_mapping (lookup def.name user)) resolved)) [
            | inl (p, e) ↦
                resolve_all-keeps schema j v user p next given
                  (written-keeps def.name def.env_var_mapping j v user resolved p given now e)
                  (rw e at h)
            | inr (x, e) ↦ absurd (ground (arith, rw e at h))
          ]

  -- What the user gives, a null included, is never replaced by a value from a container.
  pub resolve_params-keeps :
      (schema : List ParameterDefinition) (j : String) (v : Value) (user next : Params)
      → lookup j user ≡ some v
      → resolve_params inspect schema user ≡ ok next
      → lookup j next ≡ some v
  unfolding resolve_params
  resolve_params-keeps schema j v user next given h =
      resolve_all-keeps schema j v user user next given given h
