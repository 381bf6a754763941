-- ===== src/Validator/Arguments.antt =====
-- `BuildCommandArgs` of internal/validator/validator.go, on texts as lists of code points, with what it uses of
-- Go's `strings` and of its one regular expression, `\{\{(\w+)\}\}`.
use kariz.Prelude.{
  ℕ, zero, suc, ◌+◌, Bool, true, false, ◌&&◌, ◌||◌, not, Option, none, some, List, [], ◌∷◌, ◌++◌,
  Bytes, codes, length, leb, ◌==◌, if◌then◌else◌,
}
use kariz.Models.Command.{Value, ParameterDefinition}
use kariz.Validator.{Engine, Params, is_null}

-- `unicode.IsSpace`.
abbrev pub is_space : ℕ → Bool
is_space c =
    (leb 9 c && leb c 13)
    || c == 32
    || c == 133
    || c == 160
    || c == 5760
    || (leb 8192 c && leb c 8202)
    || c == 8232
    || c == 8233
    || c == 8239
    || c == 8287
    || c == 12288

abbrev flush : Bytes → List Bytes
flush [] = []
flush (c ∷ word) = (c ∷ word) ∷ []

unfoldable pub split : Bytes → Bytes → List Bytes
split word [] = flush word
split word (c ∷ s) =
    let ended = split [] s in
    let longer = split (word ++ c ∷ []) s in if is_space c then flush word ++ ended else longer

-- `strings.Fields`.
unfoldable pub fields : Bytes → List Bytes
unfolding split
fields s = split [] s

-- The class `\w`.
abbrev pub is_word : ℕ → Bool
is_word c =
    (leb b'0' c && leb c b'9')
    || (leb b'A' c && leb c b'Z')
    || (leb b'a' c && leb c b'z')
    || c == b'_'

-- The longest run of `\w` in front of `}}`, after the characters `name`.
unfoldable pub closing : Bytes → Bytes → Option Bytes
closing name [] = none
closing name (c ∷ s) =
    let rest = closing (name ++ c ∷ []) s in
    if is_word c then rest else if c == b'}' then closed name s else none
  where
    closed : Bytes → Bytes → Option Bytes
    closed [] s = none
    closed (n ∷ name) [] = none
    closed (n ∷ name) (d ∷ s) = if d == b'}' then some (n ∷ name) else none

-- The name of the placeholder in front of a text.
unfoldable pub placeholder : Bytes → Option Bytes
unfolding closing
placeholder [] = none
placeholder (c ∷ []) = none
placeholder (c ∷ d ∷ s) = if (c == b'{') && (d == b'{') then closing [] s else none

abbrev pub is_some {ℓ} : {A : Type ℓ} → Option A → Bool
is_some none = false
is_some (some a) = true

-- `MatchString`.
unfoldable pub has_placeholder : Bytes → Bool
unfolding placeholder
has_placeholder [] = false
has_placeholder (c ∷ s) = let rest = has_placeholder s in is_some (placeholder (c ∷ s)) || rest

abbrev pub same : Bytes → Bytes → Bool
same [] [] = true
same [] (d ∷ t) = false
same (c ∷ s) [] = false
same (c ∷ s) (d ∷ t) = let rest = same s t in if c == d then rest else false

unfoldable pub value_of : Bytes → Params → Option Value
value_of name [] = none
value_of name ((k, v) ∷ params) = if same (codes k) name then some v else value_of name params

module _ (engine : Engine) where
  -- The first default of this name that is not nil.
  unfoldable pub default_of : Bytes → List ParameterDefinition → Option Value
  default_of name [] = none
  default_of name (def ∷ schema) =
      let rest = default_of name schema in
      if same (codes def.name) name && not (is_null engine def.default_value)
      then some def.default_value
      else rest

  abbrev pub braced : Bytes → Bytes
  braced name = b'{' ∷ b'{' ∷ name ++ b'}' ∷ b'}' ∷ []

  abbrev pub chosen : Option Value → Option Value → Bytes → Bytes
  chosen (some v) default name = codes (engine.format v)
  chosen none (some v) name = codes (engine.format v)
  chosen none none name = braced name

  -- What a placeholder becomes.
  unfoldable pub substitute : List ParameterDefinition → Params → Bytes → Bytes
  substitute schema params name = chosen (value_of name params) (default_of name schema) name

  -- `ReplaceAllStringFunc`, given the placeholder in front of the text, and how many characters of
  -- a match are still to be passed over.
  unfoldable pub replace : (Bytes → Bytes) → Option Bytes → ℕ → Bytes → Bytes
  replace f found skip [] = []
  replace f found (suc skip) (c ∷ s) = replace f (placeholder s) skip s
  replace f none zero (c ∷ s) = c ∷ replace f (placeholder s) zero s
  replace f (some name) zero (c ∷ s) = f name ++ replace f (placeholder s) (length name + 3) s

  unfoldable pub argument : List ParameterDefinition → Params → Bytes → Bytes
  unfolding has_placeholder substitute replace
  argument schema params token =
      if has_placeholder token
      then replace (substitute schema params) (placeholder token) 0 token
      else token

  unfoldable pub arguments : List ParameterDefinition → Params → List Bytes → List Bytes
  unfolding argument
  arguments schema params [] = []
  arguments schema params (token ∷ tokens) =
      argument schema params token ∷ arguments schema params tokens

  -- The error that the source gives beside the arguments is always nil.
  unfoldable pub build_command_args : Bytes → List ParameterDefinition → Params → List Bytes
  unfolding fields arguments
  build_command_args command schema params = arguments schema params (fields command)
