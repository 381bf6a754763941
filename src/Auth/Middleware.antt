-- ===== src/Auth/Middleware.antt =====
-- internal/auth/middleware.go: who may pass to a handler.
use kariz.Prelude.{
  String, Bool, false, ◌||◌, Option, none, some, List, [], ◌∷◌, ◌=ₛ◌, if◌then◌else◌,
}
use kariz.Models.Errors.{Error, lit}
use kariz.Models.User.{Role, SessionData}
use kariz.Database.{Result, ok, err, Exec, ◌>>=◌, fail, require, ◌or_reply◌}
use kariz.Auth.{Tables, has_role, replied}
use kariz.Auth.Store.{SessionCodec, get}

abbrev pub unauthorized : String → Error
unauthorized message = replied 401 "unauthorized" (lit message ∷ [])

abbrev pub forbidden : Error
forbidden = replied 403 "forbidden" (lit "access denied" ∷ [])

module _ (codec : SessionCodec) where
  abbrev pub session_of : String → Exec Tables SessionData
  session_of token = do
    found ← get codec token or_reply unauthorized "session expired or invalid"
    require (unauthorized "session expired or invalid") found

  -- The session that the handlers behind it see. The cookie is none where the request has none.
  unfoldable pub auth_middleware : Option String → Exec Tables SessionData
  auth_middleware none = fail (unauthorized "authentication required")
  auth_middleware (some token) =
      if token =ₛ "" then fail (unauthorized "authentication required") else session_of token

unfoldable pub has_role_intersection : List Role → List Role → Bool
has_role_intersection [] required = false
has_role_intersection (r ∷ rs) required = has_role r required || has_role_intersection rs required

-- `GetSessionFromContext` gives none where no session was set.
unfoldable pub require_role : List Role → Option SessionData → Result (Unit {0})
require_role required none = err (unauthorized "authentication required")
require_role required (some d) =
    if has_role_intersection d.roles required then ok tt else err forbidden
