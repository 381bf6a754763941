-- ===== src/Admin/Calls.antt =====
-- The administration handlers keep an active administrator (internal/api/admin_handlers.go).
use kariz.Prelude.{
  ℕ, ◌≡◌, refl, String, Bool, true, false, Option, none, some, List, [], ◌∷◌, All, ◌=ₛ◌,
}
use kariz.Models.User.{User, SessionData}
use kariz.Database.{World, fail}
use kariz.Database.Triples.{
  Ensures, Ensures-pure, Ensures-fail, Ensures-lift, Ensures-statement, Ensures-or_reply,
  Ensures-or_default, Ensures-bind, Ensures-kept, Ensures-time_now, Ensures-if, Ensures-fact,
}
use kariz.Auth.{Tables}
use kariz.Auth.Users
use kariz.Auth.Users.{Collation, updated_row, user_id, roles_of, is_active_admin, is_counted}
use kariz.Auth.Provider.{Bcrypt}
use kariz.Admin.{
  CreateUserRequest, UpdateUserRequest, present, own_account, create_user, list_users,
  invalidate_if, deactivate_found, deactivate_user, update_user_roles, deactivated, chosen_active,
  is_own, invalidates, store_changes, update_user,
}
use kariz.Admin.LastAdmin.{HasAdmin, Allows}
use kariz.Admin.RoleRows.{update_roles-HasAdmin, create-HasAdmin}
use kariz.Admin.Guards.{
  look_up-Found, ensure_not_last_admin-Allows, load_roles-HasAdmin, guard_active-Allows,
  guard_roles-Allows, delete_by_user_id-HasAdmin, update-HasAdmin, change_password-Allows,
}

module _ (bcrypt : Bcrypt) where
  present-HasAdmin : (o : Option User) → Ensures HasAdmin HasAdmin (λ _. HasAdmin) (present o)
  unfolding present
  present-HasAdmin none = Ensures-pure _ λ t h. h
  present-HasAdmin (some u) = Ensures-fail _ λ t h. h

  create_user-HasAdmin :
      (uuid : String) (salt : ℕ) (req : Option CreateUserRequest)
      → Ensures HasAdmin HasAdmin (λ _. HasAdmin) (create_user bcrypt uuid salt req)
  unfolding create_user Users.get_by_username
  create_user-HasAdmin uuid salt none = Ensures-fail _ λ t h. h
  create_user-HasAdmin uuid salt (some req) =
      Ensures-bind _ _ (Ensures-lift {Q = λ _. HasAdmin} _ (λ a t h _. h) λ t h. h) λ roles.
        Ensures-bind _ _
          (Ensures-or_reply _ _ (Ensures-statement {Q = λ _. HasAdmin} _ _ (λ now t h. h) λ t h. h))
          λ existing. Ensures-bind _ _ (present-HasAdmin existing) λ _.
            Ensures-bind _ _
              (Ensures-or_reply _ _ (Ensures-lift {Q = λ _. HasAdmin} _ (λ a t h _. h) λ t h. h))
              λ hash. Ensures-bind _ _ Ensures-time_now λ now.
                Ensures-bind _ _ (Ensures-or_reply _ _ (create-HasAdmin _ roles))
                  λ _. Ensures-pure _ λ t h. h

module _ (order : Collation) (id : String) (path : (id =ₛ "") ≡ false) where
  get_user_roles-HasAdmin :
      Ensures HasAdmin HasAdmin (λ _. HasAdmin) (Users.get_user_roles order id)
  unfolding Users.get_user_roles
  get_user_roles-HasAdmin = Ensures-statement _ _ (λ now t h. h) λ t h. h

  deactivate_found-HasAdmin :
      (u : User)
      → u.id ≡ id
      → Ensures (Allows id false) HasAdmin (λ _. HasAdmin) (deactivate_found order id u)
  deactivate_found-HasAdmin u key = Ensures-bind _ _ Ensures-time_now λ now.
      Ensures-bind _ _
        (Ensures-or_reply _ _ (update-HasAdmin id (deactivated now u) false key refl))
        λ _. Ensures-bind _ _ (delete_by_user_id-HasAdmin id) λ _.
          Ensures-bind _ _ (Ensures-or_default [] _ get_user_roles-HasAdmin λ t h. h)
            λ roles. Ensures-pure _ λ t h. h

  deactivate_user-HasAdmin :
      (session : Option SessionData)
      → Ensures HasAdmin HasAdmin (λ _. HasAdmin) (deactivate_user order session id)
  unfolding deactivate_user
  deactivate_user-HasAdmin session =
      Ensures-if (is_own session id) (fail own_account) _ (λ e. Ensures-fail own_account λ t h. h)
        λ e. Ensures-bind _ _ (look_up-Found id) λ u. Ensures-fact _ _ λ key.
          Ensures-bind _ _ (ensure_not_last_admin-Allows order id u path)
            λ _. deactivate_found-HasAdmin u key

  update_user_roles-HasAdmin :
      (req : Option (List String))
      → Ensures HasAdmin HasAdmin (λ _. HasAdmin) (update_user_roles order id req)
  unfolding update_user_roles
  update_user_roles-HasAdmin none = Ensures-fail _ λ t h. h
  update_user_roles-HasAdmin (some names) =
      Ensures-bind _ _ (Ensures-lift {Q = λ _. HasAdmin} _ (λ a t h _. h) λ t h. h) λ roles.
        Ensures-bind _ _ (look_up-Found id) λ u. Ensures-fact _ _ λ key.
          Ensures-bind _ _ (guard_roles-Allows order id u roles path) λ _.
            Ensures-bind _ _ (Ensures-or_reply _ _ (update_roles-HasAdmin id roles))
              λ _. Ensures-bind _ _ (delete_by_user_id-HasAdmin id) λ _. Ensures-pure _ λ t h. h

  invalidate_if-HasAdmin :
      (b : Bool) → Ensures HasAdmin HasAdmin (λ _. HasAdmin) (invalidate_if b id)
  unfolding invalidate_if
  invalidate_if-HasAdmin true = delete_by_user_id-HasAdmin id
  invalidate_if-HasAdmin false = Ensures-pure _ λ t h. h

  module _ (bcrypt : Bcrypt) where
    store_changes-HasAdmin :
        (req : UpdateUserRequest) (u : User)
        → u.id ≡ id
        → Ensures
            (Allows id (chosen_active req.is_active u.is_active))
            HasAdmin
            (λ _. HasAdmin)
            (store_changes order bcrypt id req u)
    store_changes-HasAdmin req u key = Ensures-bind _ _ Ensures-time_now λ now.
        Ensures-bind _ _ (Ensures-or_reply _ _ (update-HasAdmin id _ _ key refl)) λ _.
          Ensures-bind _ _ (invalidate_if-HasAdmin (invalidates req))
            λ _. Ensures-bind _ _ (load_roles-HasAdmin order id) λ roles. Ensures-pure _ λ t h. h

    update_user-HasAdmin :
        (session : Option SessionData) (salt : ℕ) (req : Option UpdateUserRequest)
        → Ensures HasAdmin HasAdmin (λ _. HasAdmin) (update_user order bcrypt session id salt req)
    unfolding update_user
    update_user-HasAdmin session salt none = Ensures-fail _ λ t h. h
    update_user-HasAdmin session salt (some req) = Ensures-bind _ _ (look_up-Found id) λ u.
        Ensures-fact _ _ λ key.
          Ensures-bind _ _ (guard_active-Allows order _ id u req.is_active path) λ _.
            Ensures-bind _ _ (change_password-Allows bcrypt id salt req.password _)
              λ _. store_changes-HasAdmin req u key

-- The requests to the handlers. `id` is the path's part `:id`.
pub data AdminCall : Type 0 where
  creates : String → ℕ → Option CreateUserRequest → AdminCall
  updates : Option SessionData → String → ℕ → Option UpdateUserRequest → AdminCall
  deactivates : Option SessionData → String → AdminCall
  assigns : String → Option (List String) → AdminCall
  lists : AdminCall

-- The router gives `:id` a text that is not empty.
abbrev pub IsRouted : AdminCall → Type 0
IsRouted (creates uuid salt req) = Unit
IsRouted (updates session id salt req) = (id =ₛ "") ≡ false
IsRouted (deactivates session id) = (id =ₛ "") ≡ false
IsRouted (assigns id req) = (id =ₛ "") ≡ false
IsRouted lists = Unit

module _ (order : Collation) (bcrypt : Bcrypt) where
  abbrev pub serve : AdminCall → World Tables → World Tables
  serve (creates uuid salt req) w = (create_user bcrypt uuid salt req w).1
  serve (updates session id salt req) w = (update_user order bcrypt session id salt req w).1
  serve (deactivates session id) w = (deactivate_user order session id w).1
  serve (assigns id req) w = (update_user_roles order id req w).1
  serve lists w = (list_users order w).1

  abbrev pub serves : List AdminCall → World Tables → World Tables
  serves [] w = w
  serves (c ∷ cs) w = serves cs (serve c w)

  profiles-HasAdmin :
      (us : List User) → Ensures HasAdmin HasAdmin (λ _. HasAdmin) (Users.profiles order us)
  unfolding Users.profiles Users.get_user_roles
  profiles-HasAdmin [] = Ensures-pure _ λ t h. h
  profiles-HasAdmin (u ∷ us) =
      Ensures-bind _ _ (Ensures-statement {Q = λ _. HasAdmin} _ _ (λ now t h. h) λ t h. h)
        λ roles. Ensures-bind _ _ (profiles-HasAdmin us) λ rest. Ensures-pure _ λ t h. h

  list_users-HasAdmin : Ensures HasAdmin HasAdmin (λ _. HasAdmin) (list_users order)
  unfolding list_users Users.list
  list_users-HasAdmin =
      Ensures-bind _ _
        (Ensures-or_reply _ _ (
          Ensures-bind _ _ (Ensures-statement {Q = λ _. HasAdmin} _ _ (λ now t h. h) λ t h. h)
            profiles-HasAdmin))
        λ users. Ensures-pure _ λ t h. h

  serve-HasAdmin :
      (c : AdminCall) (w : World Tables)
      → IsRouted c
      → HasAdmin w.tables
      → HasAdmin (serve c w).tables
  serve-HasAdmin (creates uuid salt req) w path h =
      Ensures-kept _ (create_user-HasAdmin bcrypt uuid salt req) w h
  serve-HasAdmin (updates session id salt req) w path h =
      Ensures-kept _ (update_user-HasAdmin order id path bcrypt session salt req) w h
  serve-HasAdmin (deactivates session id) w path h =
      Ensures-kept _ (deactivate_user-HasAdmin order id path session) w h
  serve-HasAdmin (assigns id req) w path h =
      Ensures-kept _ (update_user_roles-HasAdmin order id path req) w h
  serve-HasAdmin lists w path h = Ensures-kept _ list_users-HasAdmin w h

  -- If the users' IDs are distinct and some user is active with the role `admin`, then both still hold after
  -- any sequence of requests to the administration handlers, one after another, whatever they ask, whoever
  -- asks, and whichever statements fail.
  pub serves-HasAdmin :
      (cs : List AdminCall) (w : World Tables)
      → All IsRouted cs
      → HasAdmin w.tables
      → HasAdmin (serves cs w).tables
  serves-HasAdmin [] w routed h = h
  serves-HasAdmin (c ∷ cs) w routed h =
      serves-HasAdmin cs (serve c w) routed.1 (serve-HasAdmin c w routed.0 h)
