-- ===== src/Admin.antt =====
-- internal/api/admin_handlers.go: the administration of users. Each handler sits behind the middleware
-- of Auth.Middleware with the role `admin`.
pub mod Roles
pub mod LastAdmin
pub mod RoleRows
pub mod Guards
pub mod Calls
pub mod Revocation
mod Examples
use kariz.Prelude.{
  ℕ, ◌==◌, String, Bool, true, false, not, ◌&&◌, ◌||◌, Option, none, some, List, [], ◌∷◌, ◌=ₛ◌,
  if◌then◌else◌,
}
use kariz.Models.Errors.{Error, lit, error_text}
use kariz.Models.User.{User, UserProfile, Role, SessionData, role_admin}
use kariz.Database.{
  Result, ok, err, Exec, ◌>>=◌, ◌>>◌, pure, fail, lift, require, ◌or_reply◌, or_default, time_now,
  wrap_error,
}
use kariz.Auth.{Tables, has_role, replied, bad_request, internal_error}
use kariz.Auth.Users
use kariz.Auth.Users.{Collation, profile}
use kariz.Auth.Sessions
use kariz.Auth.Provider.{Bcrypt, hash_password}
use kariz.Admin.Roles.{parse_and_validate_roles}

-- The bodies of the requests; a field that is none is absent, or null.
pub record CreateUserRequest : Type 0 where
  pub username : String
  pub password : String
  pub email : String
  pub roles : List String

pub record UpdateUserRequest : Type 0 where
  pub email : Option String
  pub is_active : Option Bool
  pub password : Option String

-- The status of the answer, and its body.
abbrev pub Answer : Type 0 → Type 0
Answer A = Exec Tables (ℕ × A)

abbrev user_not_found : Error
user_not_found = replied 404 "not_found" (lit "user not found" ∷ [])

abbrev pub conflict : Error
conflict = replied 409 "conflict" (lit "username already exists" ∷ [])

abbrev pub own_account : Error
own_account = bad_request (lit "cannot deactivate your own account" ∷ [])

abbrev pub last_admin : Error
last_admin = bad_request (lit "cannot remove or deactivate the last active admin" ∷ [])

-- `session != nil && session.UserID == userID`.
unfoldable pub is_own : Option SessionData → String → Bool
is_own none id = false
is_own (some session) id = session.user_id =ₛ id

abbrev pub look_up : String → Exec Tables User
look_up id = do
  found ← Users.get_by_id id or_reply internal_error "failed to look up user"
  require user_not_found found

abbrev pub invalidate_sessions : String → Exec Tables (Unit {0})
invalidate_sessions id =
    Sessions.delete_by_user_id id or_reply internal_error "failed to invalidate user sessions"

unfoldable pub refuse_zero : ℕ → Exec Tables (Unit {0})
refuse_zero count = if count == 0 then fail last_admin else pure tt

abbrev pub refuse_last : String → Exec Tables (Unit {0})
refuse_last id = do
  count ← Users.count_active_admins id or_reply internal_error "failed to count admins"
  refuse_zero count

-- The guard of the loop over the roles, and of the user's flag.
unfoldable pub guard_admin : String → User → List Role → Exec Tables (Unit {0})
guard_admin id user current_roles =
    if not (has_role role_admin current_roles) || not user.is_active
    then pure tt
    else refuse_last id

-- `parseAndValidateRoles`, and the answer to a name that is no role.
unfoldable pub invalid_reply : Result (List Role) → Result (List Role)
invalid_reply (ok roles) = ok roles
invalid_reply (err e) = err (bad_request (error_text e))

abbrev pub parsed_roles : List String → Result (List Role)
parsed_roles names = invalid_reply (parse_and_validate_roles names)

unfoldable pub present : Option User → Exec Tables (Unit {0})
present none = pure tt
present (some existing) = fail conflict

abbrev pub new_user : String → ℕ → String → CreateUserRequest → User
new_user uuid now hash req = record {
  id = uuid;
  username = req.username;
  password_hash = hash;
  email = req.email;
  is_active = true;
  created_at = now;
  updated_at = now;
}

module _ (bcrypt : Bcrypt) where
  abbrev pub hashed : ℕ → String → Exec Tables String
  hashed salt password =
      lift (hash_password bcrypt salt password) or_reply internal_error "failed to hash password"

  abbrev pub create_valid : String → ℕ → CreateUserRequest → List Role → Answer UserProfile
  create_valid uuid salt req roles = do
    existing ← Users.get_by_username req.username or_reply internal_error "failed to look up user"
    present existing
    hash ← hashed salt req.password
    now ← time_now
    Users.create (new_user uuid now hash req) roles or_reply internal_error "failed to create user"
    pure (201, profile (new_user uuid now hash req) roles)

  -- The handlers' requests are none where the body does not bind.
  unfoldable pub create_user : String → ℕ → Option CreateUserRequest → Answer UserProfile
  create_user uuid salt none =
      fail
        (bad_request (lit "invalid request body: username, password, and roles are required" ∷ []))
  create_user uuid salt (some req) = do
    roles ← lift (parsed_roles req.roles)
    create_valid uuid salt req roles

  abbrev pub set_password : String → ℕ → String → Exec Tables (Unit {0})
  set_password id salt password = do
    hash ← hashed salt password
    Users.update_password id hash or_reply internal_error "failed to update password"

  unfoldable pub change_password : String → ℕ → Option String → Exec Tables (Unit {0})
  change_password id salt none = pure tt
  change_password id salt (some password) =
      if password =ₛ "" then pure tt else set_password id salt password

unfoldable pub invalidate_if : Bool → String → Exec Tables (Unit {0})
invalidate_if true id = invalidate_sessions id
invalidate_if false id = pure tt

abbrev pub deactivated : ℕ → User → User
deactivated now user = record user { is_active = false; updated_at = now }

module _ (order : Collation) where
  unfoldable pub list_users : Answer (List UserProfile)
  list_users = do
    users ← Users.list order or_reply internal_error "failed to list users"
    pure (200, users)

  abbrev pub load_roles : String → Exec Tables (List Role)
  load_roles id = Users.get_user_roles order id or_reply internal_error "failed to load user roles"

  unfoldable pub ensure_not_last_admin : String → User → Exec Tables (Unit {0})
  ensure_not_last_admin id user = do
    current_roles ← load_roles id
    guard_admin id user current_roles

  -- The guards of a request that sets `is_active`.
  unfoldable pub guard_active : Bool → String → User → Option Bool → Exec Tables (Unit {0})
  guard_active own id user none = pure tt
  guard_active own id user (some true) = pure tt
  guard_active own id user (some false) =
      if own then fail own_account else ensure_not_last_admin id user

  abbrev pub deactivate_found : String → User → Answer UserProfile
  deactivate_found id user = do
    now ← time_now
    Users.update (deactivated now user) or_reply internal_error "failed to deactivate user"
    invalidate_sessions id
    roles ← or_default [] (Users.get_user_roles order id)
    pure (200, profile (deactivated now user) roles)

  unfoldable pub deactivate_user : Option SessionData → String → Answer UserProfile
  deactivate_user session id =
      if is_own session id
      then fail own_account
      else do user ← look_up id; ensure_not_last_admin id user; deactivate_found id user

  -- The roles are refused to the last active administrator if `admin` is not among them.
  unfoldable pub guard_roles : String → User → List Role → Exec Tables (Unit {0})
  guard_roles id user roles =
      if not (has_role role_admin roles) && user.is_active
      then ensure_not_last_admin id user
      else pure tt

  unfoldable pub update_user_roles : String → Option (List String) → Answer UserProfile
  update_user_roles id none =
      fail (bad_request (lit "invalid request body: roles field is required" ∷ []))
  update_user_roles id (some names) = do
    roles ← lift (parsed_roles names)
    user ← look_up id
    guard_roles id user roles
    Users.update_roles id roles or_reply internal_error "failed to update user roles"
    invalidate_sessions id
    pure (200, profile user roles)

abbrev pub chosen_email : Option String → String → String
chosen_email none email = email
chosen_email (some changed) email = changed

abbrev pub chosen_active : Option Bool → Bool → Bool
chosen_active none active = active
chosen_active (some changed) active = changed

abbrev pub is_set {ℓ} : {A : Type ℓ} → Option A → Bool
is_set none = false
is_set (some a) = true

abbrev pub is_nonempty : Option String → Bool
is_nonempty none = false
is_nonempty (some s) = not (s =ₛ "")

-- `invalidateSessions`.
abbrev pub invalidates : UpdateUserRequest → Bool
invalidates req = is_set req.is_active || is_nonempty req.password

abbrev pub changed_user : UpdateUserRequest → ℕ → User → User
changed_user req now user = record user {
  email = chosen_email req.email user.email;
  is_active = chosen_active req.is_active user.is_active;
  updated_at = now;
}

module _ (order : Collation) (bcrypt : Bcrypt) where
  abbrev pub store_changes : String → UpdateUserRequest → User → Answer UserProfile
  store_changes id req user = do
    now ← time_now
    Users.update (changed_user req now user) or_reply internal_error "failed to update user"
    invalidate_if (invalidates req) id
    roles ← load_roles order id
    pure (200, profile (changed_user req now user) roles)

  unfoldable pub update_user :
      Option SessionData → String → ℕ → Option UpdateUserRequest → Answer UserProfile
  update_user session id salt none = fail (bad_request (lit "invalid request body" ∷ []))
  update_user session id salt (some req) = do
    user ← look_up id
    guard_active order (is_own session id) id user req.is_active
    change_password bcrypt id salt req.password
    store_changes id req user
