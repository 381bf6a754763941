-- ===== src/Auth/Sessions.antt =====
-- internal/auth/session_repository.go: the statements on the table `sessions`.
use kariz.Prelude.{
  ℕ, String, not, ◌&&◌, Option, none, some, List, [], ◌∷◌, ◌++◌, ltb, leb, length, select, ◌=ₛ◌,
  if◌then◌else◌,
}
use kariz.Models.Errors.{wrapped}
use kariz.Models.User.{User, Session}
use kariz.Database.{Result, ok, err, Exec, statement}
use kariz.Database.Rows.{find}
use kariz.Auth.{Tables}
use kariz.Auth.Users.{user_id, duplicate_key, foreign_key}

abbrev pub session_token : Session → String
session_token s = s.session_token

abbrev pub session_id : Session → String
session_id s = s.id

-- The keys of the table are `id` and `session_token`, and `user_id` refers to a user.
unfoldable pub add_session :
    Session → Option Session → Option Session → Option User → Tables → Result (Unit {0}) × Tables
add_session s none none (some u) t = (ok tt, record t { sessions = t.sessions ++ s ∷ [] })
add_session s none none none t = (err (wrapped "insert session" foreign_key), t)
add_session s none (some r) owner t = (err (wrapped "insert session" duplicate_key), t)
add_session s (some r) same owner t = (err (wrapped "insert session" duplicate_key), t)

unfoldable pub create : Session → Exec Tables (Unit {0})
create s = statement "insert session" (λ now t.
    add_session s (find session_token s.session_token t.sessions) (find session_id s.id t.sessions)
      (find user_id s.user_id t.users) t)

-- `session_token = $1 AND expires_at > NOW()`.
unfoldable pub live : String → ℕ → List Session → Option Session
live token now [] = none
live token now (s ∷ rows) =
    if s.session_token =ₛ token && ltb now s.expires_at then some s else live token now rows

unfoldable pub get_by_token : String → Exec Tables (Option Session)
get_by_token token = statement "get session by token" (λ now t. (ok (live token now t.sessions), t))

unfoldable pub delete : String → Exec Tables (Unit {0})
delete token = statement "delete session" (λ now t.
    (ok tt, record t { sessions = select (λ s. not (s.session_token =ₛ token)) t.sessions }))

abbrev pub without_sessions : String → Tables → Tables
without_sessions id t = record t { sessions = select (λ s. not (s.user_id =ₛ id)) t.sessions }

unfoldable pub delete_by_user_id : String → Exec Tables (Unit {0})
delete_by_user_id id =
    statement "delete sessions by user id" (λ now t. (ok tt, without_sessions id t))

-- `DELETE … WHERE expires_at <= NOW()`, and the number of its rows.
unfoldable pub clean_expired : Exec Tables ℕ
clean_expired = statement "clean expired sessions" (λ now t. (
  ok (length (select (λ s. leb s.expires_at now) t.sessions)),
  record t { sessions = select (λ s. ltb now s.expires_at) t.sessions },
))
