-- ===== src/Auth.antt =====
-- internal/auth: users, their roles and their sessions, and the tables that hold them.
pub mod Users
pub mod RoleLists
pub mod Sessions
pub mod Store
pub mod Provider
pub mod Middleware
pub mod Handlers
pub mod Admission
pub mod Authentic
mod Examples
use kariz.Prelude.{ℕ, String, Bool, false, ◌||◌, List, [], ◌∷◌, ◌=ₛ◌}
use kariz.Models.User.{User, Role, Session}
use kariz.Models.Errors.{Message, lit, Error, reply}

-- The tables `users`, `user_roles` and `sessions`; a row of `user_roles` is its user's ID and the role.
pub record Tables : Type 0 where
  pub users : List User
  pub user_roles : List (String × Role)
  pub sessions : List Session

-- `for _, r := range roles { if r == role … }`.
unfoldable pub has_role : Role → List Role → Bool
has_role role [] = false
has_role role (r ∷ rs) = r =ₛ role || has_role role rs

-- `models.APIError{Code: code, Message: message}`, with its status.
abbrev pub replied : ℕ → String → Message → Error
replied status code message = reply status (record { code = code; message = message; details = [] })

abbrev pub internal_error : String → Error
internal_error message = replied 500 "internal_error" (lit message ∷ [])

abbrev pub bad_request : Message → Error
bad_request message = replied 400 "bad_request" message
