-- ===== src/Auth/Provider.antt =====
-- internal/auth/provider.go: the local provider, which checks a password against the table `users`.
use kariz.Prelude.{ℕ, String, Bool, not, Option, none, some, if◌then◌else◌}
use kariz.Models.User.{User, LoginCredentials, AuthResult, success, refused}
use kariz.Database.{Result, Exec, ◌>>=◌, pure, ◌or_wrap◌, wrap_error}
use kariz.Auth.{Tables}
use kariz.Auth.Users.{Collation, get_by_username, get_user_roles, profile}

-- golang.org/x/crypto/bcrypt. A hash is made with a random salt; `compare` takes the hash first.
pub record Bcrypt : Type 0 where
  pub generate : ℕ → String → Result String
  pub compare : String → String → Bool

unfoldable pub hash_password : Bcrypt → ℕ → String → Result String
hash_password bcrypt salt password = wrap_error "hash password" (bcrypt.generate salt password)

module _ (order : Collation) (bcrypt : Bcrypt) where
  abbrev pub authenticated : User → Exec Tables AuthResult
  authenticated u = do
    roles ← get_user_roles order u.id or_wrap "get user roles"
    pure (success (profile u roles))

  unfoldable pub checked : LoginCredentials → Option User → Exec Tables AuthResult
  checked creds none = pure (refused "invalid credentials")
  checked creds (some u) =
      if not u.is_active
      then pure (refused "account disabled")
      else if bcrypt.compare u.password_hash creds.password
      then authenticated u
      else pure (refused "invalid credentials")

  unfoldable pub authenticate : LoginCredentials → Exec Tables AuthResult
  authenticate creds = do
    user ← get_by_username creds.username or_wrap "lookup user"
    checked creds user
