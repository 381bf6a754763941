-- ===== src/Auth/Store.antt =====
-- internal/auth/session_store.go: sessions as data under a token, on the statements of Auth.Sessions.
pub mod Refinement
pub mod Calls
use kariz.Prelude.{ℕ, ◌≡◌, ◌+◌, String, Option, none, some}
use kariz.Models.Errors.{wrapped}
use kariz.Models.User.{Session, SessionData}
use kariz.Database.{Result, ok, err, Exec, ◌>>=◌, ◌>>◌, pure, lift, ◌or_wrap◌, time_now, statement}
use kariz.Auth.{Tables}
use kariz.Auth.Sessions

-- encoding/json on a session's data, and the column of type JSONB between.
pub record SessionCodec : Type 0 where
  pub marshal : SessionData → Result String
  pub jsonb : String → String
  pub unmarshal : String → Result SessionData
  pub unmarshal-marshal :
      (d : SessionData) (text : String) → marshal d ≡ ok text → unmarshal (jsonb text) ≡ ok d

-- What one request draws: the hexadecimal text of 32 bytes of `crypto/rand`, or its failure, and a new UUID.
pub record Fresh : Type 0 where
  pub token : Result String
  pub uuid : String

abbrev pub stamped : ℕ → ℕ → SessionData → SessionData
stamped now ttl d = record d { created_at = now; expires_at = now + ttl }

unfoldable pub decoded_text : Result SessionData → Result (Option SessionData)
decoded_text (ok d) = ok (some d)
decoded_text (err e) = err (wrapped "unmarshal session data" e)

module _ (codec : SessionCodec) where
  abbrev pub new_session : String → String → String → SessionData → Session
  new_session uuid token text d = record {
    id = uuid;
    user_id = d.user_id;
    session_token = token;
    session_data = codec.jsonb text;
    expires_at = d.expires_at;
    created_at = d.created_at;
  }

  abbrev pub insert_stamped : Fresh → String → SessionData → Exec Tables String
  insert_stamped fresh token d = do
    text ← lift (codec.marshal d) or_wrap "marshal session data"
    Sessions.create (new_session fresh.uuid token text d) or_wrap "create session"
    pure token

  unfoldable pub create : ℕ → Fresh → SessionData → Exec Tables String
  create ttl fresh d = do
    token ← lift fresh.token or_wrap "generate session token"
    now ← time_now
    insert_stamped fresh token (stamped now ttl d)

  unfoldable pub decoded : Option Session → Result (Option SessionData)
  decoded none = ok none
  decoded (some s) = decoded_text (codec.unmarshal s.session_data)

  unfoldable pub get : String → Exec Tables (Option SessionData)
  get token = do session ← Sessions.get_by_token token or_wrap "get session"; lift (decoded session)

unfoldable pub delete : String → Exec Tables (Unit {0})
delete token = Sessions.delete token

unfoldable pub delete_by_user_id : String → Exec Tables (Unit {0})
delete_by_user_id id = Sessions.delete_by_user_id id

unfoldable pub clean_expired : Exec Tables (Unit {0})
clean_expired = do count ← Sessions.clean_expired; pure tt
