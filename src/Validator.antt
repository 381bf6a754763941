-- ===== src/Validator.antt =====
-- internal/validator/validator.go: the checks of parameters against a schema. The engine of regular expressions and the order of
-- float64 numbers, which come with Go, are parameters, and so is the text that `fmt` gives a value.
pub mod Verdict
pub mod Arguments
pub mod Isolation
pub mod Examples
use kariz.Prelude.{
  ℕ, ◌+◌, ◌^◌, String, Bool, true, false, Option, none, some, List, [], ◌∷◌, ◌++◌, Bytes, codes,
  ltb, ◌=ₛ◌, if◌then◌else◌, ℤ, pos, lt_int,
}
use kariz.Models.Errors.{
  Message, lit, quoted, shown, decimal, listing, Error, error_text, ValidationError,
}
use kariz.Models.Command.{
  ParameterType, of_string, of_number, of_boolean, of_enum, unsupported, Value, null, text, number,
  boolean, composite, ValidationRules, ParameterDefinition,
}
use kariz.Database.{Result, ok, err}

pub record Engine : Type 1 where
  pub Regexp : Type 0
  pub compile : String → Result Regexp
  pub matches : Regexp → String → Bool
  pub less : ℕ → ℕ → Bool
  pub format : Value → String

-- The parameters in the order in which the map is ranged over.
abbrev pub Params : Type 0
Params = List (String × Value)

unfoldable pub lookup : String → Params → Option Value
lookup name [] = none
lookup name ((k, v) ∷ params) = if k =ₛ name then some v else lookup name params

pub record ValidationResult : Type 0 where
  pub valid : Bool
  pub errors : List ValidationError

abbrev reject : String → String → Message → ValidationResult → ValidationResult
reject name code message result = record {
  valid = false;
  errors = result.errors ++ record { parameter_name = name; message = message; code = code } ∷ [];
}

abbrev about : String → String → Message
about name rest = lit "parameter " ∷ quoted name ∷ lit rest ∷ []

-- The bytes of a text in UTF-8.
abbrev width : ℕ → ℕ
width c = if ltb c 128 then 1 else if ltb c 2048 then 2 else if ltb c 65536 then 3 else 4

abbrev bytes_of : Bytes → ℕ
bytes_of [] = 0
bytes_of (c ∷ s) = width c + bytes_of s

abbrev pub byte_length : String → ℕ
byte_length s = bytes_of (codes s)

abbrev pub listed : String → List String → Bool
listed value [] = false
listed value (s ∷ allowed) = let rest = listed value allowed in if value =ₛ s then true else rest

module _ (engine : Engine) where
  open engine use {compile, matches, less, format}

  abbrev check_max_length : String → Option ℤ → String → ValidationResult → ValidationResult
  check_max_length name none value result = result
  check_max_length name (some n) value result =
      if lt_int n (pos (byte_length value))
      then reject name "validation_failed"
          (about name " exceeds maximum length of " ++ decimal n ∷ []) result
      else result

  -- A pattern that does not compile ends the checks.
  unfoldable pub validate_string :
      String → ValidationRules → String → ValidationResult → ValidationResult
  validate_string name rules value result =
      if rules.pattern =ₛ ""
      then check_max_length name rules.max_length value result
      else elim (compile rules.pattern) [
        | err e ↦
            reject name "validation_failed"
              (about name " has invalid validation pattern: " ++ error_text e) result
        | ok re ↦ check_max_length name rules.max_length value (
            if matches re value
            then result
            else reject name "validation_failed"
                (about name " value "
                  ++ quoted value ∷ lit " does not match pattern " ∷ quoted rules.pattern ∷ [])
                result)
      ]

  abbrev check_min : String → Option ℕ → ℕ → ValidationResult → ValidationResult
  check_min name none value result = result
  check_min name (some least) value result =
      if less value least
      then reject name "validation_failed"
          (about name " value "
            ++ shown (format (number value))
              ∷ lit " is less than minimum "
              ∷ shown (format (number least))
              ∷ [])
          result
      else result

  abbrev check_max : String → Option ℕ → ℕ → ValidationResult → ValidationResult
  check_max name none value result = result
  check_max name (some most) value result =
      if less most value
      then reject name "validation_failed"
          (about name " value "
            ++ shown (format (number value))
              ∷ lit " exceeds maximum "
              ∷ shown (format (number most))
              ∷ [])
          result
      else result

  unfoldable pub validate_number :
      String → ValidationRules → ℕ → ValidationResult → ValidationResult
  validate_number name rules value result =
      check_max name rules.max value (check_min name rules.min value result)

  abbrev pub is_empty : List String → Bool
  is_empty [] = true
  is_empty (x ∷ xs) = false

  unfoldable pub validate_enum :
      String → ValidationRules → String → ValidationResult → ValidationResult
  validate_enum name rules value result =
      if is_empty rules.enum_values
      then result
      else if listed value rules.enum_values
      then result
      else reject name "validation_failed"
          (about name " value "
            ++ quoted value
              ∷ lit " is not one of the allowed values: "
              ∷ listing rules.enum_values
              ∷ [])
          result

  abbrev with_rules :
      {A : Type 0}
      → (String → ValidationRules → A → ValidationResult → ValidationResult)
      → String
      → Option ValidationRules
      → A
      → ValidationResult
      → ValidationResult
  with_rules check name none value result = result
  with_rules check name (some rules) value result = check name rules value result

  abbrev wrong_type : String → String → ValidationResult → ValidationResult
  wrong_type name expected = reject name "invalid_type" (about name expected)

  -- `toFloat64` of a JSON value.
  abbrev pub to_float : Value → Option ℕ
  to_float null = none
  to_float (text s) = none
  to_float (number n) = some n
  to_float (boolean b) = none
  to_float (composite s) = none

  abbrev pub to_text : Value → Option String
  to_text null = none
  to_text (text s) = some s
  to_text (number n) = none
  to_text (boolean b) = none
  to_text (composite s) = none

  abbrev pub is_boolean : Value → Bool
  is_boolean null = false
  is_boolean (text s) = false
  is_boolean (number n) = false
  is_boolean (boolean b) = true
  is_boolean (composite s) = false

  abbrev cast :
      {A : Type 0}
      → Option A
      → (ValidationResult → ValidationResult)
      → (A → ValidationResult → ValidationResult)
      → ValidationResult
      → ValidationResult
  cast none wrong check result = wrong result
  cast (some a) wrong check result = check a result

  unfoldable pub validate_type :
      String → ParameterType → Option ValidationRules → Value → ValidationResult → ValidationResult
  validate_type name of_string rules value result =
      cast (to_text value) (wrong_type name " must be a string")
        (with_rules validate_string name rules) result
  validate_type name of_number rules value result =
      cast (to_float value) (wrong_type name " must be a number")
        (with_rules validate_number name rules) result
  validate_type name of_boolean rules value result =
      if is_boolean value then result else wrong_type name " must be a boolean" result
  validate_type name of_enum rules value result =
      cast (to_text value) (wrong_type name " must be a string for enum type")
        (with_rules validate_enum name rules) result
  validate_type name (unsupported t) rules value result =
      reject name "invalid_type" (about name " has unsupported type " ++ quoted t ∷ []) result

  abbrev pub is_null : Value → Bool
  is_null null = true
  is_null (text s) = false
  is_null (number n) = false
  is_null (boolean b) = false
  is_null (composite s) = false

  -- A parameter that is not given, or given as null.
  abbrev pub absent : ParameterDefinition → ValidationResult → ValidationResult
  absent def result =
      if def.required
      then if is_null def.default_value
        then reject def.name "required" (about def.name " is required") result
        else result
      else result

  abbrev pub given : ParameterDefinition → Option Value → ValidationResult → ValidationResult
  given def none result = absent def result
  given def (some value) result =
      if is_null value
      then absent def result
      else validate_type def.name def.kind def.validation value result

  unfoldable pub validate_defined :
      List ParameterDefinition → Params → ValidationResult → ValidationResult
  validate_defined [] params result = result
  validate_defined (def ∷ schema) params result =
      validate_defined schema params (given def (lookup def.name params) result)

  unfoldable pub known : String → List ParameterDefinition → Bool
  known name [] = false
  known name (def ∷ schema) =
      let rest = known name schema in if def.name =ₛ name then true else rest

  abbrev pub check_known : Bool → String → ValidationResult → ValidationResult
  check_known true name result = result
  check_known false name result =
      reject name "unknown_parameter" (lit "unknown parameter " ∷ quoted name ∷ []) result

  unfoldable pub reject_unknown :
      List ParameterDefinition → Params → ValidationResult → ValidationResult
  reject_unknown schema [] result = result
  reject_unknown schema ((name, value) ∷ params) result =
      reject_unknown schema params (check_known (known name schema) name result)

  unfoldable pub validate : List ParameterDefinition → Params → ValidationResult
  validate schema params =
      validate_defined schema params
        (reject_unknown schema params (record { valid = true; errors = [] }))
