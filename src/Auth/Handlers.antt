-- ===== src/Auth/Handlers.antt =====
-- internal/auth/handlers.go: login, logout, and who is logged in.
use kariz.Prelude.{ℕ, ◌/◌, String, false, Option, none, some, [], ◌∷◌, ◌=ₛ◌, if◌then◌else◌}
use kariz.Models.Errors.{lit}
use kariz.Models.User.{LoginCredentials, AuthResult, success, refused, UserProfile, SessionData}
use kariz.Database.{Result, ok, err, Exec, ◌>>=◌, ◌>>◌, pure, fail, logged, ◌or_reply◌}
use kariz.Auth.{Tables, bad_request, internal_error}
use kariz.Auth.Users.{Collation}
use kariz.Auth.Store.{SessionCodec, Fresh, create, delete}
use kariz.Auth.Provider.{Bcrypt, authenticate}
use kariz.Auth.Middleware.{unauthorized}

-- The cookie `kariz_session` that an answer sets: its value, and `MaxAge` in seconds, where -1 deletes it.
pub record Cookie : Type 0 where
  pub value : String
  pub max_age : Option ℕ

abbrev pub session_data_of : UserProfile → SessionData
session_data_of u = record {
  user_id = u.id;
  username = u.username;
  roles = u.roles;
  created_at = 0;
  expires_at = 0;
}

abbrev pub issued : ℕ → UserProfile → String → Exec Tables (Cookie × UserProfile)
issued ttl u token = pure (record { value = token; max_age = some (ttl / 1000000000) }, u)

module _ (codec : SessionCodec) (ttl : ℕ) where
  unfoldable pub logged_in : Fresh → AuthResult → Exec Tables (Cookie × UserProfile)
  logged_in fresh (refused message) = fail (unauthorized message)
  logged_in fresh (success u) = do
    token ←
        create codec ttl fresh (session_data_of u)
        or_reply internal_error "failed to create session"
    issued ttl u token

module _ (order : Collation) (bcrypt : Bcrypt) (codec : SessionCodec) (ttl : ℕ) where
  -- The credentials are none where the request's body does not bind.
  unfoldable pub login : Fresh → Option LoginCredentials → Exec Tables (Cookie × UserProfile)
  login fresh none = fail (bad_request (lit "invalid request body" ∷ []))
  login fresh (some creds) = do
    result ← authenticate order bcrypt creds or_reply internal_error "authentication failed"
    logged_in codec ttl fresh result

unfoldable pub delete_token : Option String → Exec Tables (Unit {0})
delete_token none = pure tt
delete_token (some token) = if token =ₛ "" then pure tt else logged (delete token)

unfoldable pub logout : Option String → Exec Tables Cookie
logout token = delete_token token >> pure (record { value = ""; max_age = none })

-- The fields that the handler does not set are zero.
unfoldable pub me : Option SessionData → Result UserProfile
me none = err (unauthorized "authentication required")
me (some d) = ok (record {
  id = d.user_id;
  username = d.username;
  email = "";
  roles = d.roles;
  is_active = false;
})
