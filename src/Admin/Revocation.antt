-- ===== src/Admin/Revocation.antt =====
-- Which requests of internal/api/admin_handlers.go end the sessions of their user.
use kariz.Prelude.{
  ℕ, ◌≡◌, refl, String, Bool, true, false, not, Option, some, List, [], ◌∷◌, All, select, arith,
  ◌=ₛ◌, if◌then◌else◌,
}
use kariz.Models.User.{UserProfile, Session, SessionData}
use kariz.Database.{ok, World, fail}
use kariz.Database.Triples.{
  Ensures, Ensures-pure, Ensures-fail, Ensures-statement, Ensures-or_reply, Ensures-or_default,
  Ensures-bind, Ensures-if, Ensures-answer, Ensures-Anything, Anything,
}
use kariz.Auth.{Tables}
use kariz.Auth.Users
use kariz.Auth.Users.{Collation}
use kariz.Auth.Sessions
use kariz.Auth.Provider.{Bcrypt}
use kariz.Admin.{
  UpdateUserRequest, Answer, own_account, is_own, invalidate_sessions, invalidate_if, invalidates,
  deactivate_user, update_user_roles, update_user,
}

-- The user has no session.
abbrev pub NoSession : String → Tables → Type 0
NoSession id t = All (λ s. (s.user_id =ₛ id) ≡ false) t.sessions

kept_other :
    (id : String) (s : Session) (ss : List Session) (b : Bool)
    → (s.user_id =ₛ id) ≡ b
    → All (λ s. (s.user_id =ₛ id) ≡ false) ss
    → All (λ s. (s.user_id =ₛ id) ≡ false) (if not b then s ∷ ss else ss)
kept_other id s ss true e h = h
kept_other id s ss false e h = (e, h)

others :
    (id : String) (ss : List Session)
    → All (λ s. (s.user_id =ₛ id) ≡ false) (select (λ s. not (s.user_id =ₛ id)) ss)
others id [] = tt
others id (s ∷ ss) = kept_other id s _ (s.user_id =ₛ id) refl (others id ss)

module _ (id : String) where
  invalidate_sessions-NoSession :
      Ensures Anything Anything (λ _. NoSession id) (invalidate_sessions id)
  unfolding Sessions.delete_by_user_id
  invalidate_sessions-NoSession =
      Ensures-or_reply _ _ (Ensures-statement _ _ (λ now t p. others id t.sessions) λ t p. tt)

  invalidate_if-NoSession :
      (b : Bool) → b ≡ true → Ensures Anything Anything (λ _. NoSession id) (invalidate_if b id)
  unfolding invalidate_if
  invalidate_if-NoSession true e = invalidate_sessions-NoSession
  invalidate_if-NoSession false e = absurd (ground arith)

  get_user_roles-NoSession :
      {E : Tables → Type 0} (order : Collation)
      → ((t : Tables) → NoSession id t → E t)
      → Ensures (NoSession id) E (λ _. NoSession id) (Users.get_user_roles order id)
  unfolding Users.get_user_roles
  get_user_roles-NoSession order e = Ensures-statement _ _ (λ now t h. h) e

-- A request about a user that changes what the user may do.
pub data Sensitive : Type 0 where
  deactivates : Option SessionData → Sensitive
  assigns : List String → Sensitive
  updates : Option SessionData → ℕ → UpdateUserRequest → Sensitive

-- An update counts if it sets `is_active`, or a password that is not empty.
abbrev pub IsRevoking : Sensitive → Type 0
IsRevoking (deactivates session) = Unit
IsRevoking (assigns names) = Unit
IsRevoking (updates session salt req) = invalidates req ≡ true

module _ (order : Collation) (bcrypt : Bcrypt) (id : String) where
  abbrev pub served : Sensitive → Answer UserProfile
  served (deactivates session) = deactivate_user order session id
  served (assigns names) = update_user_roles order id (some names)
  served (updates session salt req) = update_user order bcrypt session id salt (some req)

  deactivate_user-NoSession :
      (session : Option SessionData)
      → Ensures Anything Anything (λ _. NoSession id) (deactivate_user order session id)
  unfolding deactivate_user
  deactivate_user-NoSession session =
      Ensures-if (is_own session id) (fail own_account) _ (λ e. Ensures-fail own_account λ t h. tt)
        λ e. Ensures-bind _ _ (Ensures-Anything _) λ u. Ensures-bind _ _ (Ensures-Anything _) λ _.
          Ensures-bind _ _ (Ensures-Anything _) λ now. Ensures-bind _ _ (Ensures-Anything _) λ _.
            Ensures-bind _ _ (invalidate_sessions-NoSession id) λ _.
              Ensures-bind _ _
                (Ensures-or_default [] _ (get_user_roles-NoSession id order λ t h. h) λ t h. h)
                λ roles. Ensures-pure _ λ t h. h

  update_user_roles-NoSession :
      (names : List String)
      → Ensures Anything Anything (λ _. NoSession id) (update_user_roles order id (some names))
  unfolding update_user_roles
  update_user_roles-NoSession names = Ensures-bind _ _ (Ensures-Anything _) λ roles.
      Ensures-bind _ _ (Ensures-Anything _) λ u. Ensures-bind _ _ (Ensures-Anything _) λ _.
        Ensures-bind _ _ (Ensures-Anything _)
          λ _. Ensures-bind _ _ (invalidate_sessions-NoSession id) λ _. Ensures-pure _ λ t h. h

  update_user-NoSession :
      (session : Option SessionData) (salt : ℕ) (req : UpdateUserRequest)
      → invalidates req ≡ true
      → Ensures Anything Anything
          (λ _. NoSession id)
          (update_user order bcrypt session id salt (some req))
  unfolding update_user
  update_user-NoSession session salt req e = Ensures-bind _ _ (Ensures-Anything _) λ u.
      Ensures-bind _ _ (Ensures-Anything _) λ _. Ensures-bind _ _ (Ensures-Anything _) λ _.
        Ensures-bind _ _ (Ensures-Anything _) λ now. Ensures-bind _ _ (Ensures-Anything _) λ _.
          Ensures-bind _ _ (invalidate_if-NoSession id (invalidates req) e) λ _.
            Ensures-bind _ _ (Ensures-or_reply _ _ (get_user_roles-NoSession id order λ t h. tt))
              λ roles. Ensures-pure _ λ t h. h

  served-NoSession :
      (c : Sensitive) → IsRevoking c → Ensures Anything Anything (λ _. NoSession id) (served c)
  served-NoSession (deactivates session) e = deactivate_user-NoSession session
  served-NoSession (assigns names) e = update_user_roles-NoSession names
  served-NoSession (updates session salt req) e = update_user-NoSession session salt req e

  -- When a deactivation, a change of roles, or an update that sets `is_active` or a password that is not empty is
  -- answered as done, the user it is about has no session left.
  pub served-Revoked :
      (c : Sensitive) (w : World Tables) (r : ℕ × UserProfile)
      → IsRevoking c
      → (served c w).0 ≡ ok r
      → NoSession id (served c w).1.tables
  served-Revoked c w r e answer = Ensures-answer (served c) w r (served-NoSession c e) tt answer
