-- ===== src/Validator/Isolation.antt =====
-- What parameters can change in the arguments that `BuildCommandArgs` of internal/validator/validator.go gives.
use kariz.Prelude.{
  ℕ, suc, ◌+◌, ◌≡◌, refl, sym, ap, ◌∙◌, true, false, Option, none, some, List, [], ◌∷◌, ◌++◌, Bytes,
  codes, length-append, length, All, arith,
}
use mathlib.Core.List.{append-nil, append_assoc}
use kariz.Models.Command.{Value, ParameterDefinition}
use kariz.Validator.{Engine, Params}
use kariz.Validator.Arguments.{
  fields, is_word, closing, placeholder, has_placeholder, value_of, substitute, replace, argument,
  arguments, build_command_args, braced, default_of,
}

-- The tokens that name no parameter.
abbrev pub IsPlain : Bytes → Type 0
IsPlain token = has_placeholder token ≡ false

module _ (engine : Engine) (schema : List ParameterDefinition) (params : Params) where
  arguments-length :
      (tokens : List Bytes) → length (arguments engine schema params tokens) ≡ length tokens
  unfolding arguments
  arguments-length [] = refl
  arguments-length (token ∷ tokens) = ap suc (arguments-length tokens)

  arguments-plain :
      (tokens : List Bytes) → All IsPlain tokens → arguments engine schema params tokens ≡ tokens
  unfolding arguments argument
  arguments-plain [] h = refl
  arguments-plain (token ∷ tokens) (p, h) = rw (p, arguments-plain tokens h) refl

  -- Whatever the parameters hold, spaces and shell characters included, the command line has as many
  -- arguments as its template has words, and it is the template itself if no word has a placeholder.
  pub build_command_args-isolates :
      (command : Bytes)
      → (length (build_command_args engine command schema params) ≡ length (fields command))
        × (All IsPlain (fields command)
            → build_command_args engine command schema params ≡ fields command)
  unfolding build_command_args
  build_command_args-isolates command =
      (arguments-length (fields command), arguments-plain (fields command))

closing-word :
    (done name : Bytes)
    → All (λ c. is_word c ≡ true) name
    → closing done (name ++ b'}' ∷ b'}' ∷ []) ≡ closing (done ++ name) (b'}' ∷ b'}' ∷ [])
unfolding closing
closing-word done [] h = rw append-nil refl
closing-word done (c ∷ name) (w, h) =
    rw (w, closing-word (done ++ c ∷ []) name h, append_assoc done (c ∷ []) name) refl

placeholder-braced :
    (engine : Engine) (c : ℕ) (name : Bytes)
    → All (λ d. is_word d ≡ true) (c ∷ name)
    → placeholder (braced engine (c ∷ name)) ≡ some (c ∷ name)
unfolding placeholder
placeholder-braced engine c name h = rw (closing-word [] (c ∷ name) h) (unfold closing in refl)

replace-skips :
    (engine : Engine) (f : Bytes → Bytes) (found : Option Bytes) (s : Bytes)
    → replace engine f found (length s) s ≡ []
unfolding replace
replace-skips engine f found [] = refl
replace-skips engine f found (c ∷ s) = replace-skips engine f (placeholder s) s

module _ (engine : Engine) (schema : List ParameterDefinition) (params : Params) (c : ℕ)
    (name : Bytes) (word : All (λ d. is_word d ≡ true) (c ∷ name)) where
  tail_length : length (b'{' ∷ c ∷ name ++ b'}' ∷ b'}' ∷ []) ≡ length (c ∷ name) + 3
  tail_length = omega (arith, length-append name (b'}' ∷ b'}' ∷ []))

  argument-substitute :
      argument engine schema params (braced engine (c ∷ name))
      ≡ substitute engine schema params (c ∷ name)
  unfolding argument has_placeholder replace
  argument-substitute =
      let tail = b'{' ∷ c ∷ name ++ b'}' ∷ b'}' ∷ [] in
      rw (placeholder-braced engine c name word) (
        rw
          (
            sym tail_length,
            replace-skips engine (substitute engine schema params) (placeholder tail) tail,
            append-nil,
          )
          refl)

  -- A word that is one placeholder becomes the text of the parameter's value, if one is given, and the text of
  -- its default if none is. A given null counts as a value here, though `Validate` counts it as missing.
  pub argument-value :
      ((v : Value)
        → value_of (c ∷ name) params ≡ some v
        → argument engine schema params (braced engine (c ∷ name)) ≡ codes (engine.format v))
      × ((v : Value)
          → value_of (c ∷ name) params ≡ none
          → default_of engine (c ∷ name) schema ≡ some v
          → argument engine schema params (braced engine (c ∷ name)) ≡ codes (engine.format v))
  unfolding substitute
  argument-value =
      ((λ v e. argument-substitute ∙ rw e refl), (λ v e d. argument-substitute ∙ rw (e, d) refl))
