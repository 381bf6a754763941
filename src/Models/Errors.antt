-- ===== src/Models/Errors.antt =====
-- internal/models/errors.go, and the errors that Go code wraps by `fmt.Errorf`.
use kariz.Prelude.{ℕ, ℤ, String, List, [], ◌∷◌}

-- A formatted text: its literal parts, and the verbs that quote a string (`%q`) or print a string, an integer or a list
-- of strings. Their rendering is Go's `fmt`.
pub data Part : Type 0 where
  lit quoted shown : String → Part
  decimal : ℤ → Part
  listing : List String → Part

abbrev pub Message : Type 0
Message = List Part

pub record ValidationError : Type 0 where
  pub parameter_name : String
  pub message : Message
  pub code : String

pub record ApiError : Type 0 where
  pub code : String
  pub message : Message
  pub details : List ValidationError

-- `outside` is an error of a library or a service, with its text. `reply` is a handler's early return: the HTTP
-- status that it writes, with its body.
pub data Error : Type 0 where
  api : ApiError → Error
  wrapped : String → Error → Error
  outside : Message → Error
  reply : ℕ → ApiError → Error

abbrev pub api_error : String → Message → Error
api_error code message = api (record { code = code; message = message; details = [] })

-- `Error()`, which the verb `%v` prints.
pub error_text : Error → Message
error_text (api e) = e.message
error_text (wrapped context e) = lit context ∷ lit ": " ∷ error_text e
error_text (outside text) = text
error_text (reply status e) = e.message
