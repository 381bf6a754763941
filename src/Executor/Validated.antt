-- ===== src/Executor/Validated.antt =====
-- The executor with the validator and the resolver of variables, as cmd/kariz/main.go connects them: what `ExecuteCommand`
-- does with parameters that cannot be filled or that the schema does not allow.
use kariz.Prelude.{◌≡◌, String, false, ◌&&◌, some, List, [], ◌∷◌, codes}
use kariz.Models.Errors.{Error, api, api_error, error_text, lit, ValidationError}
use kariz.Models.Command.{CommandEntry}
use kariz.Database.{Result, ok, err}
use kariz.EnvVar.{Environment, resolve_params}
use kariz.Validator.{Engine, Params, validate}
use kariz.Validator.Arguments.{build_command_args}
use kariz.Validator.Verdict.{all_known, all_satisfy}
use kariz.Executor.Requests.{Checks}

-- `inspect` is what Docker answers for the environment of a container; `encode` is the JSON encoder.
abbrev pub checks_of : (String → Result Environment) → Engine → (Params → Result String) → Checks
checks_of inspect engine encode = record {
  Params = Params;
  resolve = some (resolve_params inspect);
  validate = (λ schema params. let r = validate engine schema params in (r.valid, r.errors));
  build_args =
      (λ command schema params. ok (build_command_args engine (codes command) schema params));
  marshal = encode;
}

abbrev pub invalid : List ValidationError → Error
invalid errors = api (record {
  code = "validation_error";
  message = lit "parameter validation failed" ∷ [];
  details = errors;
})

-- The resolver's failure, as the executor words it.
abbrev pub unresolved : Error → Error
unresolved e = api_error "validation_error" (lit "env var resolution failed: " ∷ error_text e)

-- What is refused: parameters that the resolver cannot fill, and those that the schema does not allow once they are
-- filled.
abbrev pub Refuses : Engine → CommandEntry → Result Params → Error → Type 0
Refuses engine cmd (err x) e = e ≡ unresolved x
Refuses engine cmd (ok params) e =
    ((all_known engine cmd.parameter_schema params
        && all_satisfy engine cmd.parameter_schema params)
      ≡ false)
    × (e ≡ invalid (validate engine cmd.parameter_schema params).errors)

module _ (inspect : String → Result Environment) (engine : Engine)
    (encode : Params → Result String) where
  abbrev C : Checks
  C = checks_of inspect engine encode
