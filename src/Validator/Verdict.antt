-- ===== src/Validator/Verdict.antt =====
-- When `Validate` of internal/validator/validator.go accepts.
use kariz.Prelude.{
  ℕ, ◌≡◌, ◌∙◌, ap, String, Bool, true, false, ◌&&◌, ◌||◌, not, Option, none, some, List, [], ◌∷◌,
  inl, inr, ◌=ₛ◌, if◌then◌else◌, ℤ, pos, lt_int, arith, eq_iff,
}
use kariz.Models.Command.{
  ParameterType, of_string, of_number, of_boolean, of_enum, unsupported, Value, text, number,
  boolean, ValidationRules, ParameterDefinition,
}
use kariz.Database.{ok, err, Result-cases}
use kariz.Validator.{
  Engine, Params, lookup, ValidationResult, byte_length, listed, validate_string, validate_number,
  validate_enum, is_empty, validate_type, is_null, validate_defined, known, check_known,
  reject_unknown, validate, given,
}

module _ (engine : Engine) where
  -- The rules as tests of a value.
  abbrev pub within : Option ℤ → String → Bool
  within none s = true
  within (some n) s = not (lt_int n (pos (byte_length s)))

  abbrev pub is_match : String → String → Bool
  is_match pattern s = elim (engine.compile pattern) [ ok re ↦ engine.matches re s | err e ↦ false ]

  abbrev pub string_ok : ValidationRules → String → Bool
  string_ok rules s =
      ((rules.pattern =ₛ "") || is_match rules.pattern s) && within rules.max_length s

  abbrev pub at_least : Option ℕ → ℕ → Bool
  at_least none n = true
  at_least (some least) n = not (engine.less n least)

  abbrev pub at_most : Option ℕ → ℕ → Bool
  at_most none n = true
  at_most (some most) n = not (engine.less most n)

  abbrev pub number_ok : ValidationRules → ℕ → Bool
  number_ok rules n = at_least rules.min n && at_most rules.max n

  abbrev pub enum_ok : ValidationRules → String → Bool
  enum_ok rules s = is_empty engine rules.enum_values || listed s rules.enum_values

  abbrev pub obeys : {A : Type 0} → (ValidationRules → A → Bool) → Option ValidationRules → A → Bool
  obeys test none a = true
  obeys test (some rules) a = test rules a

  -- A value that is not null, against its declared type.
  abbrev pub fits : ParameterType → Option ValidationRules → Value → Bool
  fits of_string rules (text s) = obeys string_ok rules s
  fits of_string rules v = false
  fits of_number rules (number n) = obeys number_ok rules n
  fits of_number rules v = false
  fits of_boolean rules (boolean b) = true
  fits of_boolean rules v = false
  fits of_enum rules (text s) = obeys enum_ok rules s
  fits of_enum rules v = false
  fits (unsupported t) rules v = false

  string-valid :
      (name : String) (rules : ValidationRules) (s : String) (r : ValidationResult)
      → (validate_string engine name rules s r).valid ≡ (r.valid && string_ok rules s)
  unfolding validate_string
  string-valid name rules s r = elim (Result-cases (engine.compile rules.pattern)) [
    | inl (re, e) ↦ ground (arith, e, eq_iff rules.pattern "")
    | inr (x, e) ↦ ground (arith, e, eq_iff rules.pattern "")
  ]

  number-valid :
      (name : String) (rules : ValidationRules) (n : ℕ) (r : ValidationResult)
      → (validate_number engine name rules n r).valid ≡ (r.valid && number_ok rules n)
  unfolding validate_number
  number-valid name rules n r = ground arith

  enum-valid :
      (name : String) (rules : ValidationRules) (s : String) (r : ValidationResult)
      → (validate_enum engine name rules s r).valid ≡ (r.valid && enum_ok rules s)
  unfolding validate_enum
  enum-valid name rules s r = ground arith

  type-valid :
      (name : String) (kind : ParameterType) (rules : Option ValidationRules) (v : Value)
      (r : ValidationResult)
      → (validate_type engine name kind rules v r).valid ≡ (r.valid && fits kind rules v)
  unfolding validate_type
  type-valid name of_string none (text s) r = ground arith
  type-valid name of_string (some x) (text s) r = string-valid name x s r
  type-valid name of_number none (number n) r = ground arith
  type-valid name of_number (some x) (number n) r = number-valid name x n r
  type-valid name of_enum none (text s) r = ground arith
  type-valid name of_enum (some x) (text s) r = enum-valid name x s r
  type-valid name kind rules v r = ground arith

  -- A parameter may be missing, or null, if it is optional or has a default.
  abbrev pub may_miss : ParameterDefinition → Bool
  may_miss def = not def.required || not (is_null engine def.default_value)

  abbrev pub satisfies : ParameterDefinition → Option Value → Bool
  satisfies def none = may_miss def
  satisfies def (some v) = if is_null engine v then may_miss def else fits def.kind def.validation v

  abbrev pub all_satisfy : List ParameterDefinition → Params → Bool
  all_satisfy [] params = true
  all_satisfy (def ∷ schema) params =
      satisfies def (lookup def.name params) && all_satisfy schema params

  abbrev pub all_known : List ParameterDefinition → Params → Bool
  all_known schema [] = true
  all_known schema ((name, v) ∷ params) = known engine name schema && all_known schema params

  given-valid :
      (def : ParameterDefinition) (v : Option Value) (r : ValidationResult)
      → (given engine def v r).valid ≡ (r.valid && satisfies def v)
  given-valid def none r = ground arith
  given-valid def (some v) r = ground (arith, type-valid def.name def.kind def.validation v r)

  defined-valid :
      (schema : List ParameterDefinition) (params : Params) (r : ValidationResult)
      → (validate_defined engine schema params r).valid ≡ (r.valid && all_satisfy schema params)
  unfolding validate_defined
  defined-valid [] params r = ground arith
  defined-valid (def ∷ schema) params r =
      let v = lookup def.name params in
      let first = given-valid def v r in
      let rest = defined-valid schema params (given engine def v r) in ground (arith, first, rest)

  check_known-valid :
      (b : Bool) (name : String) (r : ValidationResult)
      → (check_known engine b name r).valid ≡ (r.valid && b)
  check_known-valid true name r = ground arith
  check_known-valid false name r = ground arith

  unknown-valid :
      (schema : List ParameterDefinition) (params : Params) (r : ValidationResult)
      → (reject_unknown engine schema params r).valid ≡ (r.valid && all_known schema params)
  unfolding reject_unknown
  unknown-valid schema [] r = ground arith
  unknown-valid schema ((name, v) ∷ params) r =
      let b = known engine name schema in
      ground (
        arith,
        unknown-valid schema params (check_known engine b name r),
        check_known-valid b name r,
      )

  -- `Validate` accepts just the parameters that the schema allows: each one given is declared, and each
  -- declared one obeys its type and its rules, or is missing or null and is optional or has a default.
  pub validate-accepts :
      (schema : List ParameterDefinition) (params : Params)
      → (validate engine schema params).valid
        ≡ (all_known schema params && all_satisfy schema params)
  unfolding validate
  validate-accepts schema params =
      let start : ValidationResult = record { valid = true; errors = [] } in
      defined-valid schema params (reject_unknown engine schema params start)
      ∙ ap (λ b. b && all_satisfy schema params) (unknown-valid schema params start)
