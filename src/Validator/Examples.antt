-- ===== src/Validator/Examples.antt =====
-- Tests and instances for internal/validator/validator.go.
use kariz.Prelude.{
  ◌≡◌, refl, String, true, false, ◌&&◌, none, some, [], ◌∷◌, Bytes, codes, length, All, ltb,
}
use kariz.Models.Errors.{outside, lit}
use kariz.Models.Command.{
  of_string, Value, null, text, number, boolean, composite, ParameterDefinition,
}
use kariz.Database.{err}
use kariz.Validator.{Engine, Params, validate, validate_defined, lookup, reject_unknown, known}
use kariz.Validator.Verdict.{all_known, all_satisfy, validate-accepts}
use kariz.Validator.Arguments.{
  fields, value_of, default_of, argument, build_command_args, braced, is_word,
}
use kariz.Validator.Isolation.{IsPlain, build_command_args-isolates, argument-value}

abbrev pub printed : Value → String
printed null = "<nil>"
printed (text s) = s
printed (number n) = "0"
printed (boolean b) = "true"
printed (composite s) = s

abbrev pub engine : Engine
engine = record {
  Regexp = Unit {0};
  compile = (λ pattern. err (outside (lit "unsupported" ∷ [])));
  matches = (λ re s. false);
  less = ltb;
  format = printed;
}

abbrev target : ParameterDefinition
target = record {
  name = "dir";
  kind = of_string;
  required = true;
  default_value = text "/tmp";
  description = "";
  validation = none;
  env_var_mapping = none;
}

abbrev given_dir : Params
given_dir = ("dir", text "/srv; rm -rf /") ∷ []

abbrev template : Bytes
template = codes "ls  {{dir}}/x -l"

validate-accepts_example :
    (validate engine (target ∷ []) given_dir).valid
    ≡ (all_known engine (target ∷ []) given_dir && all_satisfy engine (target ∷ []) given_dir)
validate-accepts_example = validate-accepts engine (target ∷ []) given_dir

-- The value stays one argument.
build_example :
    build_command_args engine template (target ∷ []) given_dir
    ≡ codes "ls" ∷ codes "/srv; rm -rf //x" ∷ codes "-l" ∷ []
unfolding build_command_args value_of
build_example = refl

build_command_args-isolates_example :
    (length (build_command_args engine template (target ∷ []) given_dir) ≡ length (fields template))
    × (All IsPlain (fields template)
        → build_command_args engine template (target ∷ []) given_dir ≡ fields template)
build_command_args-isolates_example =
    build_command_args-isolates engine (target ∷ []) given_dir template

-- A null for a required parameter that has a default is accepted, and becomes an argument.
null_accepted : (validate engine (target ∷ []) (("dir", null) ∷ [])).valid ≡ true
unfolding validate validate_defined lookup reject_unknown known
null_accepted = refl

null_printed :
    build_command_args engine (codes "ls {{dir}}") (target ∷ []) (("dir", null) ∷ [])
    ≡ codes "ls" ∷ codes "<nil>" ∷ []
unfolding build_command_args value_of
null_printed = refl

abbrev dir_word : All (λ d. is_word d ≡ true) (codes "dir")
dir_word = (refl, (refl, (refl, tt)))

argument-value_example :
    ((v : Value)
      → value_of (codes "dir") given_dir ≡ some v
      → argument engine (target ∷ []) given_dir (braced engine (codes "dir"))
        ≡ codes (engine.format v))
    × ((v : Value)
        → value_of (codes "dir") given_dir ≡ none
        → default_of engine (codes "dir") (target ∷ []) ≡ some v
        → argument engine (target ∷ []) given_dir (braced engine (codes "dir"))
          ≡ codes (engine.format v))
argument-value_example = argument-value engine (target ∷ []) given_dir b'd' (codes "ir") dir_word
