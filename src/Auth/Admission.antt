-- ===== src/Auth/Admission.antt =====
-- From a login (internal/auth/handlers.go) to the requests that its cookie admits (internal/auth/middleware.go).
use kariz.Prelude.{
  ℕ, ◌+◌, ◌≡◌, ◌∙◌, refl, sym, String, false, Option, none, some, List, [], ◌∷◌, ◌++◌, ltb, arith,
  eq_iff, ◌=ₛ◌, if◌then◌else◌, inl, inr,
}
use kariz.Models.User.{
  User, UserProfile, Session, SessionData, LoginCredentials, AuthResult, success, refused,
}
use kariz.Database.{
  Result, ok, err, World, ◌>>=◌, pure, require, continue, wrap_error, reply_error, elapse,
  Result-cases,
}
use kariz.Database.Calm.{AreCalm, statement-calm}
use kariz.Database.Rows.{find}
use kariz.Database.Triples.{statement-ends}
use kariz.Auth.{Tables, internal_error}
use kariz.Auth.Sessions
use kariz.Auth.Sessions.{session_token, add_session, live}
use kariz.Auth.Users.{Collation}
use kariz.Auth.Store.{
  SessionCodec, Fresh, stamped, new_session, insert_stamped, decoded, decoded_text, create, get,
}
use kariz.Auth.Provider.{Bcrypt, authenticate}
use kariz.Auth.Middleware.{unauthorized, session_of, auth_middleware}
use kariz.Auth.Handlers.{Cookie, session_data_of, issued, logged_in, login}

live-append :
    (now : ℕ) (rows : List Session) (s : Session)
    → find session_token s.session_token rows ≡ none
    → live s.session_token now (rows ++ s ∷ []) ≡ (if ltb now s.expires_at then some s else none)
unfolding live find
live-append now [] s h = ground (arith, eq_iff s.session_token s.session_token)
live-append now (r ∷ rows) s h =
    ground (arith, live-append now rows s, eq_iff r.session_token s.session_token)

-- What a session of the user holds.
abbrev pub session_from : ℕ → ℕ → UserProfile → SessionData
session_from start ttl u = record {
  user_id = u.id;
  username = u.username;
  roles = u.roles;
  created_at = start;
  expires_at = start + ttl;
}

abbrev pub while_live : ℕ → SessionData → Option SessionData
while_live now d = if ltb now d.expires_at then some d else none

module _ (codec : SessionCodec) where
  -- The token gives the data, until it expires.
  Holds : String → SessionData → List Session → Type 0
  Holds token d rows = (now : ℕ) → decoded codec (live token now rows) ≡ ok (while_live now d)

  Holds-append :
      (rows : List Session) (s : Session) (d : SessionData)
      → find session_token s.session_token rows ≡ none
      → codec.unmarshal s.session_data ≡ ok d
      → s.expires_at ≡ d.expires_at
      → Holds s.session_token d (rows ++ s ∷ [])
  unfolding Holds decoded decoded_text
  Holds-append rows s d h data_of time now = ground (arith, live-append now rows s h, data_of, time)

  InsertHolds : Result (Unit {0}) → String → SessionData → List Session → Type 0
  InsertHolds (ok u) token d rows = Holds token d rows
  InsertHolds (err e) token d rows = Unit

  CreateHolds : Result String → SessionData → List Session → Type 0
  CreateHolds (ok token) d rows = Holds token d rows
  CreateHolds (err e) d rows = Unit

  add-InsertHolds :
      (t : Tables) (s : Session) (d : SessionData) (same clash : Option Session)
      (owner : Option User)
      → find session_token s.session_token t.sessions ≡ same
      → codec.unmarshal s.session_data ≡ ok d
      → s.expires_at ≡ d.expires_at
      → let r = add_session s same clash owner t in InsertHolds r.0 s.session_token d r.1.sessions
  unfolding add_session InsertHolds
  add-InsertHolds t s d none none (some u) h data_of time =
      Holds-append t.sessions s d h data_of time
  add-InsertHolds t s d none none none h data_of time = tt
  add-InsertHolds t s d none (some c) owner h data_of time = tt
  add-InsertHolds t s d (some c) clash owner h data_of time = tt

  insert-InsertHolds :
      (s : Session) (d : SessionData) (w : World Tables)
      → codec.unmarshal s.session_data ≡ ok d
      → s.expires_at ≡ d.expires_at
      → let r = Sessions.create s w in InsertHolds r.0 s.session_token d r.1.tables.sessions
  unfolding Sessions.create InsertHolds
  insert-InsertHolds s d w data_of time =
      statement-ends _ _ w (λ x v. InsertHolds x s.session_token d v.tables.sessions)
        (add-InsertHolds w.tables s d _ _ _ refl data_of time) λ e. tt

  continue-CreateHolds :
      (token : String) (d : SessionData) (x : Result (Unit {0})) (v : World Tables)
      → InsertHolds x token d v.tables.sessions
      → let r = continue (wrap_error "create session" x) (λ _. pure token) v in
        CreateHolds r.0 d r.1.tables.sessions
  unfolding ◌>>=◌ InsertHolds CreateHolds
  continue-CreateHolds token d (ok u) v h = h
  continue-CreateHolds token d (err e) v h = tt

  stamped-CreateHolds :
      (fresh : Fresh) (token : String) (d : SessionData) (w : World Tables)
      → let r = insert_stamped codec fresh token d w in CreateHolds r.0 d r.1.tables.sessions
  unfolding ◌>>=◌ CreateHolds
  stamped-CreateHolds fresh token d w = elim (Result-cases (codec.marshal d)) [
    | inl h ↦ rw h.1 (
        continue-CreateHolds token d _ _ (
          insert-InsertHolds (new_session codec fresh.uuid token h.0 d) d w
            (codec.unmarshal-marshal d h.0 h.1) refl))
    | inr h ↦ rw h.1 tt
  ]

  create-CreateHolds :
      (ttl : ℕ) (fresh : Fresh) (d : SessionData) (w : World Tables)
      → let r = create codec ttl fresh d w in
        CreateHolds r.0 (stamped w.clock ttl d) r.1.tables.sessions
  unfolding create ◌>>=◌ CreateHolds
  create-CreateHolds ttl fresh d w = elim (Result-cases fresh.token) [
    | inl h ↦ rw h.1 (stamped-CreateHolds fresh h.0 (stamped w.clock ttl d) w)
    | inr h ↦ rw h.1 tt
  ]

  -- The answer of the middleware to a cookie.
  abbrev pub admitted : Option SessionData → Result SessionData
  admitted none = err (unauthorized "session expired or invalid")
  admitted (some d) = ok d

  get-calm :
      (token : String) (v : World Tables)
      → AreCalm v.latencies
      → (get codec token v).0 ≡ decoded codec (live token (elapse v).clock v.tables.sessions)
  unfolding get Sessions.get_by_token ◌>>=◌
  get-calm token v calm =
      rw (
        statement-calm "get session by token" (λ now t. (ok (live token now t.sessions), t)) v calm)

  require-admitted :
      (x : Result (Option SessionData)) (o : Option SessionData) (v : World Tables)
      → x ≡ ok o
      → (continue
          (reply_error (unauthorized "session expired or invalid") x)
          (require (unauthorized "session expired or invalid"))
          v).0
        ≡ admitted o
  unfolding ◌>>=◌
  require-admitted x none v h = rw h
  require-admitted x (some d) v h = rw h

  session_of-Holds :
      (token : String) (d : SessionData) (v : World Tables)
      → Holds token d v.tables.sessions
      → AreCalm v.latencies
      → (session_of codec token v).0 ≡ admitted (while_live (elapse v).clock d)
  unfolding ◌>>=◌ Holds
  session_of-Holds token d v holds calm =
      require-admitted _ _ _ (get-calm token v calm ∙ holds (elapse v).clock)

module _ (order : Collation) (bcrypt : Bcrypt) (codec : SessionCodec) (ttl : ℕ) where
  LoginHolds : Result (Cookie × UserProfile) → ℕ → List Session → Type 0
  LoginHolds (ok r) start rows = Holds codec r.0.value (session_from start ttl r.1) rows
  LoginHolds (err e) start rows = Unit

  issued-LoginHolds :
      (u : UserProfile) (start : ℕ) (x : Result String) (v : World Tables)
      → CreateHolds codec x (session_from start ttl u) v.tables.sessions
      → let r =
          continue (reply_error (internal_error "failed to create session") x) (issued ttl u) v in
        LoginHolds r.0 start r.1.tables.sessions
  unfolding ◌>>=◌ LoginHolds CreateHolds
  issued-LoginHolds u start (ok token) v h = h
  issued-LoginHolds u start (err e) v h = tt

  logged_in-LoginHolds :
      (fresh : Fresh) (a : AuthResult) (w : World Tables)
      → let r = logged_in codec ttl fresh a w in LoginHolds r.0 w.clock r.1.tables.sessions
  unfolding ◌>>=◌ logged_in LoginHolds
  logged_in-LoginHolds fresh (refused message) w = tt
  logged_in-LoginHolds fresh (success u) w =
      issued-LoginHolds u w.clock _ _ (create-CreateHolds codec ttl fresh (session_data_of u) w)

  login-LoginHolds :
      (fresh : Fresh) (creds : LoginCredentials) (w : World Tables)
      → let r = login order bcrypt codec ttl fresh (some creds) w in
        LoginHolds r.0 (authenticate order bcrypt creds w).1.clock r.1.tables.sessions
  unfolding ◌>>=◌ login LoginHolds
  login-LoginHolds fresh creds w = elim (Result-cases (authenticate order bcrypt creds w).0) [
    | inl h ↦ rw h.1 (logged_in-LoginHolds fresh h.0 (authenticate order bcrypt creds w).1)
    | inr h ↦ rw h.1 tt
  ]

  LoginHolds-answer :
      (r : Cookie × UserProfile) (x : Result (Cookie × UserProfile)) (start : ℕ)
      (rows now_rows : List Session)
      → LoginHolds x start rows
      → x ≡ ok r
      → now_rows ≡ rows
      → LoginHolds (ok r) start now_rows
  LoginHolds-answer r x start rows now_rows h e same = rw (sym e, same) h

  admitted-LoginHolds :
      (r : Cookie × UserProfile) (x : Result (Cookie × UserProfile)) (start : ℕ)
      (rows : List Session) (v : World Tables)
      → LoginHolds x start rows
      → x ≡ ok r
      → (r.0.value =ₛ "") ≡ false
      → v.tables.sessions ≡ rows
      → AreCalm v.latencies
      → (auth_middleware codec (some r.0.value) v).0
        ≡ admitted codec (while_live (elapse v).clock (session_from start ttl r.1))
  unfolding auth_middleware LoginHolds
  admitted-LoginHolds r x start rows v h e nonempty same calm = rw nonempty (
      session_of-Holds codec r.0.value _ v
        (LoginHolds-answer r x start rows v.tables.sessions h e same) calm)

  -- After a login that answered a cookie and a user, a request with that cookie, made when no session
  -- was created or deleted since and whose statement does not fail, is admitted until `ttl` after the end of
  -- the authentication, with the user's ID, name and roles; from then on it is answered 401.
  pub login-auth_middleware :
      (fresh : Fresh) (creds : LoginCredentials) (w v : World Tables) (r : Cookie × UserProfile)
      → (login order bcrypt codec ttl fresh (some creds) w).0 ≡ ok r
      → (r.0.value =ₛ "") ≡ false
      → v.tables.sessions ≡ (login order bcrypt codec ttl fresh (some creds) w).1.tables.sessions
      → AreCalm v.latencies
      → (auth_middleware codec (some r.0.value) v).0
        ≡ admitted codec (
            while_live
              (elapse v).clock
              (session_from (authenticate order bcrypt creds w).1.clock ttl r.1))
  login-auth_middleware fresh creds w v r e nonempty same calm =
      admitted-LoginHolds r _ _ _ v (login-LoginHolds fresh creds w) e nonempty same calm
