-- ===== src/Admin/Guards.antt =====
-- What the guards and the statements of internal/api/admin_handlers.go leave of the active administrators.
use kariz.Prelude.{
  ℕ, ◌≡◌, refl, sym, subst, ◌∙◌, ◌==◌, String, Bool, true, false, not, ◌&&◌, ◌||◌, Option, none,
  some, List, ltb, arith, ◌=ₛ◌,
}
use kariz.Models.User.{User, Role, Session, role_admin}
use kariz.Database.{pure, fail}
use kariz.Database.Rows.{find, key-find}
use kariz.Database.Triples.{
  Ensures, Ensures-pure, Ensures-fail, Ensures-lift, Ensures-require, Ensures-statement,
  Ensures-or_reply, Ensures-bind, Ensures-if, Ensures-from,
}
use kariz.Auth.{Tables, has_role}
use kariz.Auth.Users
use kariz.Auth.Users.{Collation, updated_row, user_id, roles_of, is_active_admin, is_counted}
use kariz.Auth.Sessions
use kariz.Auth.Provider.{Bcrypt}
use kariz.Admin.{
  look_up, invalidate_sessions, refuse_zero, refuse_last, guard_admin, own_account, set_password,
  change_password, load_roles, ensure_not_last_admin, guard_active, guard_roles, chosen_active,
}
use kariz.Admin.LastAdmin.{
  HasAdmin, Allows, Found, HasAdmin-Allows, Allows-weaken, Allows-HasAdmin, Allows-active,
  Allows-other, Allows-counted, modify-HasAdmin, rehash-Allows,
}

sessions_HasAdmin :
    (ss : List Session) (t : Tables) → HasAdmin t → HasAdmin (record t { sessions = ss })
sessions_HasAdmin ss t h = record {
  unique = h.unique;
  holder = h.holder;
  row = h.row;
  is_row = h.is_row;
  is_admin = h.is_admin;
}

pub look_up-Found :
    (id : String) → Ensures HasAdmin HasAdmin (λ u t. (u.id ≡ id) × Found id u t) (look_up id)
unfolding Users.get_by_id
look_up-Found id =
    Ensures-bind _ _
      (Ensures-or_reply _ _ (
        Ensures-statement {Q = λ found t. (find user_id id t.users ≡ found) × HasAdmin t} _ _
          (λ now t h. (refl, h)) λ t h. h))
      λ found.
        Ensures-require _ found
          (λ u t h e. (key-find user_id id t.users u (h.0 ∙ e), (h.0 ∙ e, h.1))) λ t h. h.1

refuse_zero-Allows :
    (id : String) (count : ℕ)
    → Ensures
        (λ t. (ltb 0 count ≡ true → Allows id false t) × HasAdmin t)
        HasAdmin
        (λ _. Allows id false)
        (refuse_zero count)
unfolding refuse_zero
refuse_zero-Allows id count =
    Ensures-if (count == 0) _ _ (λ e. Ensures-fail _ λ t h. h.1)
      λ e. Ensures-pure _ λ t h. h.0 (ground arith)

refuse_last-Allows :
    (id : String)
    → (id =ₛ "") ≡ false
    → Ensures HasAdmin HasAdmin (λ _. Allows id false) (refuse_last id)
unfolding Users.count_active_admins
refuse_last-Allows id path =
    Ensures-bind _ _
      (Ensures-or_reply _ _ (
        Ensures-statement {Q = λ count t. (ltb 0 count ≡ true → Allows id false t) × HasAdmin t} _ _
          (λ now t h. (Allows-counted id t h path, h)) λ t h. h))
      λ count. refuse_zero-Allows id count

known_other :
    (id : String) (u : User) (roles : List Role) (t : Tables)
    → find user_id id t.users ≡ some u
    → has_role role_admin roles ≡ has_role role_admin (roles_of id t.user_roles)
    → (not (has_role role_admin roles) || not u.is_active) ≡ true
    → is_active_admin t.user_roles u ≡ false
known_other id u roles t hu hr h = ground (arith, key-find user_id id t.users u hu)

guard_admin-Allows :
    (id : String) (u : User) (roles : List Role)
    → (id =ₛ "") ≡ false
    → Ensures
        (λ t.
          (has_role role_admin roles ≡ has_role role_admin (roles_of id t.user_roles))
          × Found id u t)
        HasAdmin
        (λ _. Allows id false)
        (guard_admin id u roles)
unfolding guard_admin
guard_admin-Allows id u roles path =
    Ensures-if _ _ _
      (λ e. Ensures-pure _ λ t h. Allows-other id t u h.1 (known_other id u roles t h.1.0 h.0 e))
      λ e. Ensures-from _ (λ t h. h.1.1) (refuse_last-Allows id path)

module _ (order : Collation) where
  pub ensure_not_last_admin-Allows :
      (id : String) (u : User)
      → (id =ₛ "") ≡ false
      → Ensures (Found id u) HasAdmin (λ _. Allows id false) (ensure_not_last_admin order id u)
  unfolding ensure_not_last_admin Users.get_user_roles
  ensure_not_last_admin-Allows id u path =
      Ensures-bind _ _
        (Ensures-or_reply _ _ (
          Ensures-statement
            {Q = λ roles t.
              (has_role role_admin roles ≡ has_role role_admin (roles_of id t.user_roles))
              × Found id u t}
            _ _ (λ now t h. (order.has_role-by_role role_admin (roles_of id t.user_roles), h))
            λ t h. h.1))
        λ roles. guard_admin-Allows id u roles path

  pub load_roles-HasAdmin :
      (id : String) → Ensures HasAdmin HasAdmin (λ _. HasAdmin) (load_roles order id)
  unfolding Users.get_user_roles
  load_roles-HasAdmin id = Ensures-or_reply _ _ (Ensures-statement _ _ (λ now t h. h) λ t h. h)

  pub guard_active-Allows :
      (own : Bool) (id : String) (u : User) (active : Option Bool)
      → (id =ₛ "") ≡ false
      → Ensures
          (Found id u)
          HasAdmin
          (λ _. Allows id (chosen_active active u.is_active))
          (guard_active order own id u active)
  unfolding guard_active
  guard_active-Allows own id u none path = Ensures-pure _ λ t h. Allows-active id t u h
  guard_active-Allows own id u (some true) path =
      Ensures-pure _ λ t h. HasAdmin-Allows id t h.1 true (ground arith)
  guard_active-Allows own id u (some false) path =
      Ensures-if own (fail own_account) _ (λ e. Ensures-fail own_account λ t h. h.1)
        λ e. ensure_not_last_admin-Allows id u path

  guarded_roles :
      (id : String) (u : User) (roles : List Role)
      → has_role role_admin roles ≡ false
      → (id =ₛ "") ≡ false
      → Ensures
          (Found id u)
          HasAdmin
          (λ _. Allows id (has_role role_admin roles))
          (ensure_not_last_admin order id u)
  guarded_roles id u roles e path = rw e (ensure_not_last_admin-Allows id u path)

  unguarded_roles : (has active : Bool) → (not has && active) ≡ false → (not active || has) ≡ true
  unguarded_roles has active h = ground arith

  pub guard_roles-Allows :
      (id : String) (u : User) (roles : List Role)
      → (id =ₛ "") ≡ false
      → Ensures
          (Found id u)
          HasAdmin
          (λ _. Allows id (has_role role_admin roles))
          (guard_roles order id u roles)
  unfolding guard_roles
  guard_roles-Allows id u roles path =
      Ensures-if _ _ _ (λ e. guarded_roles id u roles (ground (arith, e)) path)
        λ e. Ensures-pure _ λ t h.
          Allows-weaken id t u.is_active (has_role role_admin roles)
            (unguarded_roles (has_role role_admin roles) u.is_active e) (Allows-active id t u h)

pub delete_by_user_id-HasAdmin :
    (id : String) → Ensures HasAdmin HasAdmin (λ _. HasAdmin) (invalidate_sessions id)
unfolding Sessions.delete_by_user_id
delete_by_user_id-HasAdmin id =
    Ensures-or_reply _ _ (Ensures-statement _ _ (λ now t h. sessions_HasAdmin _ t h) λ t h. h)

pub update-HasAdmin :
    (id : String) (u : User) (b : Bool)
    → u.id ≡ id
    → u.is_active ≡ b
    → Ensures (Allows id b) HasAdmin (λ _. HasAdmin) (Users.update u)
unfolding Users.update
update-HasAdmin id u b key active =
    Ensures-from {P = Allows u.id b} _ (λ t. subst (λ i. Allows i b t) (sym key))
      (Ensures-statement _ _
        (λ now t. modify-HasAdmin u.id t (updated_row u) b (λ r. refl) (λ r. active))
        λ t. Allows-HasAdmin u.id t b)

module _ (bcrypt : Bcrypt) where
  pub change_password-Allows :
      (id : String) (salt : ℕ) (password : Option String) (b : Bool)
      → Ensures (Allows id b) HasAdmin (λ _. Allows id b) (change_password bcrypt id salt password)
  unfolding change_password Users.update_password
  change_password-Allows id salt none b = Ensures-pure _ λ t h. h
  change_password-Allows id salt (some password) b =
      Ensures-if (password =ₛ "") (pure tt) (set_password bcrypt id salt password)
        (λ e. Ensures-pure _ λ t h. h)
        λ e.
          Ensures-bind _ _
            (Ensures-or_reply _ _
              (Ensures-lift {Q = λ _. Allows id b} _ (λ a t h _. h) λ t. Allows-HasAdmin id t b))
            λ hash. Ensures-or_reply _ _ (
              Ensures-statement _ _ (λ now t. rehash-Allows id t hash now b)
                λ t. Allows-HasAdmin id t b)
