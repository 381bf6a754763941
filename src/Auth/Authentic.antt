-- ===== src/Auth/Authentic.antt =====
-- Whom internal/auth/provider.go and the login of internal/auth/handlers.go let in.
use kariz.Prelude.{
  ◌≡◌, refl, ℕ, String, Bool, true, false, not, Option, none, some, List, if◌then◌else◌,
}
use kariz.Models.User.{
  User, UserProfile, Role, SessionData, Session, LoginCredentials, AuthResult, success, refused,
}
use kariz.Database.{ok, World, pure}
use kariz.Database.Triples.{
  Post, Ensures, Ensures-pure, Ensures-fail, Ensures-lift, Ensures-statement, Ensures-or_wrap,
  Ensures-or_reply, Ensures-bind, Ensures-time_now, Ensures-fact, Ensures-answer, Anything,
}
use kariz.Auth.{Tables}
use kariz.Auth.Sessions
use kariz.Auth.Sessions.{add_session}
use kariz.Auth.Users.{Collation, named, roles_of, profile, get_by_username, get_user_roles}
use kariz.Auth.Store.{SessionCodec, Fresh, create}
use kariz.Auth.Provider.{Bcrypt, authenticated, checked, authenticate}
use kariz.Auth.Handlers.{Cookie, logged_in, login}

-- The users and their roles are these.
Fixed : List User → List (String × Role) → Tables → Type 0
Fixed us rs t = (t.users ≡ us) × (t.user_roles ≡ rs)

module _ (order : Collation) (bcrypt : Bcrypt) (us : List User) (rs : List (String × Role)) where
  -- The profile of an active user, by the name and the password that were given.
  pub record IsAuthentic (creds : LoginCredentials) (p : UserProfile) : Type 0 where
    pub row : User
    pub is_named : named creds.username us ≡ some row
    pub is_active : row.is_active ≡ true
    pub is_password : bcrypt.compare row.password_hash creds.password ≡ true
    pub is_profile : p ≡ profile row (order.by_role (roles_of row.id rs))

  pub Sound : LoginCredentials → AuthResult → Type 0
  Sound creds (success p) = IsAuthentic creds p
  Sound creds (refused message) = Unit

  authenticated-Ensures :
      (creds : LoginCredentials) (row : User)
      → named creds.username us ≡ some row
      → row.is_active ≡ true
      → bcrypt.compare row.password_hash creds.password ≡ true
      → Ensures
          (Fixed us rs)
          Anything
          (λ a t. Sound creds a × Fixed us rs t)
          (authenticated order bcrypt row)
  unfolding Sound get_user_roles Fixed
  authenticated-Ensures creds row is_row active password =
      Ensures-bind _ _
        (Ensures-or_wrap _ _ (
          Ensures-statement
            {Q = λ roles t. (roles ≡ order.by_role (roles_of row.id rs)) × Fixed us rs t} _ _
            (λ now t p. (rw p.1 refl, p)) λ t p. tt))
        λ roles. Ensures-pure _ λ t p. (
          record {
            row = row;
            is_named = is_row;
            is_active = active;
            is_password = password;
            is_profile = rw p.0 refl;
          },
          p.1,
        )

  matched-Ensures :
      (creds : LoginCredentials) (row : User) (b : Bool)
      → named creds.username us ≡ some row
      → row.is_active ≡ true
      → bcrypt.compare row.password_hash creds.password ≡ b
      → Ensures
          (Fixed us rs)
          Anything
          (λ a t. Sound creds a × Fixed us rs t)
          (if b then authenticated order bcrypt row else pure (refused "invalid credentials"))
  unfolding Sound
  matched-Ensures creds row true is_row active password =
      authenticated-Ensures creds row is_row active password
  matched-Ensures creds row false is_row active password = Ensures-pure _ λ t p. (tt, p)

  active-Ensures :
      (creds : LoginCredentials) (row : User) (b : Bool)
      → named creds.username us ≡ some row
      → row.is_active ≡ b
      → Ensures
          (Fixed us rs)
          Anything
          (λ a t. Sound creds a × Fixed us rs t)
          (if not b
            then pure (refused "account disabled")
            else if bcrypt.compare row.password_hash creds.password
            then authenticated order bcrypt row
            else pure (refused "invalid credentials"))
  unfolding Sound
  active-Ensures creds row true is_row active =
      matched-Ensures creds row (bcrypt.compare row.password_hash creds.password) is_row active refl
  active-Ensures creds row false is_row active = Ensures-pure _ λ t p. (tt, p)

  checked-Ensures :
      (creds : LoginCredentials) (found : Option User)
      → named creds.username us ≡ found
      → Ensures
          (Fixed us rs)
          Anything
          (λ a t. Sound creds a × Fixed us rs t)
          (checked order bcrypt creds found)
  unfolding checked Sound
  checked-Ensures creds none is_row = Ensures-pure _ λ t p. (tt, p)
  checked-Ensures creds (some row) is_row = active-Ensures creds row row.is_active is_row refl

  authenticate-Ensures :
      (creds : LoginCredentials)
      → Ensures
          (Fixed us rs)
          Anything
          (λ a t. Sound creds a × Fixed us rs t)
          (authenticate order bcrypt creds)
  unfolding authenticate get_by_username Fixed
  authenticate-Ensures creds =
      Ensures-bind _ _
        (Ensures-or_wrap _ _ (
          Ensures-statement {Q = λ found t. (named creds.username us ≡ found) × Fixed us rs t} _ _
            (λ now t p. (rw p.0 refl, p)) λ t p. tt))
        λ found. Ensures-fact _ _ (checked-Ensures creds found)

  add-Fixed :
      (s : Session) (same clash : Option Session) (owner : Option User) (t : Tables)
      → Fixed us rs t
      → let r = add_session s same clash owner t in Post Anything (λ _. Fixed us rs) r.0 r.1
  unfolding add_session Fixed
  add-Fixed s none none (some u) t p = p
  add-Fixed s none none none t p = tt
  add-Fixed s none (some c) owner t p = tt
  add-Fixed s (some c) clash owner t p = tt

  module _ (codec : SessionCodec) (ttl : ℕ) where
    create-Fixed :
        (fresh : Fresh) (d : SessionData)
        → Ensures (Fixed us rs) Anything (λ _. Fixed us rs) (create codec ttl fresh d)
    unfolding create Sessions.create
    create-Fixed fresh d =
        Ensures-bind _ _
          (Ensures-or_wrap _ _
            (Ensures-lift {Q = λ _. Fixed us rs} fresh.token (λ a t p _. p) λ t p. tt))
          λ token. Ensures-bind _ _ (Ensures-time_now) λ now.
            Ensures-bind _ _
              (Ensures-or_wrap _ _ (Ensures-lift {Q = λ _. Fixed us rs} _ (λ a t p _. p) λ t p. tt))
              λ text.
                Ensures-bind _ _
                  (Ensures-or_wrap _ _ (
                    Ensures-statement {Q = λ _. Fixed us rs} _ _ (λ at t p. add-Fixed _ _ _ _ t p)
                      λ t p. tt))
                  λ _. Ensures-pure _ λ t p. p

    logged_in-Ensures :
        (fresh : Fresh) (creds : LoginCredentials) (a : AuthResult)
        → Sound creds a
        → Ensures
            (Fixed us rs)
            Anything
            (λ r t. IsAuthentic creds r.1 × Fixed us rs t)
            (logged_in codec ttl fresh a)
    unfolding logged_in Sound
    logged_in-Ensures fresh creds (refused message) sound = Ensures-fail _ λ t p. tt
    logged_in-Ensures fresh creds (success u) sound =
        Ensures-bind _ _ (Ensures-or_reply _ _ (create-Fixed fresh _))
          λ token. Ensures-pure _ λ t p. (sound, p)

    login-Ensures :
        (fresh : Fresh) (creds : LoginCredentials)
        → Ensures
            (Fixed us rs)
            Anything
            (λ r t. IsAuthentic creds r.1 × Fixed us rs t)
            (login order bcrypt codec ttl fresh (some creds))
    unfolding login
    login-Ensures fresh creds =
        Ensures-bind _ _ (Ensures-or_reply _ _ (authenticate-Ensures creds))
          λ a. Ensures-fact _ _ (logged_in-Ensures fresh creds a)

module _ (order : Collation) (bcrypt : Bcrypt) (codec : SessionCodec) (ttl : ℕ) where
  -- A login is answered with a user only if the table has an active user of the given name whose hash the
  -- given password matches, and the answer is that user's profile, with the roles that the table gives the user.
  pub login-IsAuthentic :
      (fresh : Fresh) (creds : LoginCredentials) (w : World Tables) (r : Cookie × UserProfile)
      → (login order bcrypt codec ttl fresh (some creds) w).0 ≡ ok r
      → IsAuthentic order bcrypt w.tables.users w.tables.user_roles creds r.1
  unfolding Fixed
  login-IsAuthentic fresh creds w r e =
      (Ensures-answer _ w r
        (login-Ensures order bcrypt w.tables.users w.tables.user_roles codec ttl fresh creds)
        (refl, refl) e).0
