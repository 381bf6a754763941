-- ===== src/Admin/RoleRows.antt =====
-- The statements on `user_roles`, and the insertion of a user, beside an active administrator.
use kariz.Auth.RoleLists.{has_role-append, roles_of-append, roles_of-select}
use kariz.Prelude.{
  ◌≡◌, refl, String, Bool, true, false, ◌&&◌, ◌||◌, Option, none, some, List, [], ◌∷◌, ◌++◌, arith,
  eq_iff, ◌=ₛ◌,
}
use kariz.Models.User.{User, Role, role_admin}
use kariz.Database.Rows.{find, distinct, find-append, distinct-append, key-find}
use kariz.Database.Triples.{
  Post, Ensures, Ensures-pure, Ensures-statement, Ensures-bind, Ensures-transaction, Anything,
}
use kariz.Auth.{Tables, has_role}
use kariz.Auth.Users.{
  user_id, roles_of, is_active_admin, without_roles, add_role, add_user, insert_user_roles, create,
  update_roles,
}
use kariz.Admin.LastAdmin.{HasAdmin, Allows, Allows-HasAdmin}

has_role-one : (r x : Role) (xs : List Role) → has_role r (x ∷ []) ≡ (x =ₛ r)
unfolding has_role
has_role-one r x xs = ground arith

has_role-step : (r x : Role) (xs : List Role) → has_role r (x ∷ xs) ≡ (x =ₛ r || has_role r xs)
unfolding has_role
has_role-step r x xs = refl

has_role-nil : (r : Role) → has_role r [] ≡ false
unfolding has_role
has_role-nil r = refl

-- With `roles` still to be given to the user `id`, there is an administrator.
record Adding (id : String) (roles : List Role) (t : Tables) : Type 0 where
  pub unique : distinct user_id t.users ≡ true
  pub holder : String
  pub row : User
  pub is_row : find user_id holder t.users ≡ some row
  pub active : row.is_active ≡ true
  pub admin :
      (has_role role_admin (roles_of holder t.user_roles)
        || (holder =ₛ id) && has_role role_admin roles)
      ≡ true

Adding-admin :
    (t : Tables) (j : String) (row : User)
    → find user_id j t.users ≡ some row
    → is_active_admin t.user_roles row ≡ true
    → has_role role_admin (roles_of j t.user_roles) ≡ true
Adding-admin t j row h admin = ground (arith, key-find user_id j t.users row h)

HasAdmin-Adding : (id : String) (roles : List Role) (t : Tables) → HasAdmin t → Adding id roles t
HasAdmin-Adding id roles t h = record {
  unique = h.unique;
  holder = h.holder;
  row = h.row;
  is_row = h.is_row;
  active = ground (arith, h.is_admin);
  admin = rw (Adding-admin t h.holder h.row h.is_row h.is_admin) refl;
}

Adding-HasAdmin : (id : String) (t : Tables) → Adding id [] t → HasAdmin t
Adding-HasAdmin id t a = record {
  unique = a.unique;
  holder = a.holder;
  row = a.row;
  is_row = a.is_row;
  is_admin = ground (
    arith,
    a.active,
    a.admin,
    has_role-nil role_admin,
    key-find user_id a.holder t.users a.row a.is_row,
  );
}

Allows-Adding :
    (id : String) (roles : List Role) (t : Tables)
    → Allows id (has_role role_admin roles) t
    → Adding id roles (without_roles id t)
Allows-Adding id roles t a = record {
  unique = a.unique;
  holder = a.holder;
  row = a.row;
  is_row = a.is_row;
  active = ground (arith, a.is_admin);
  admin = ground (
    arith,
    roles_of-select a.holder id t.user_roles,
    a.allowed,
    Adding-admin t a.holder a.row a.is_row a.is_admin,
    has_role-nil role_admin,
  );
}

add-Adding :
    (id : String) (role : Role) (roles : List Role) (owner : Option User) (held : Bool) (t : Tables)
    → Adding id (role ∷ roles) t
    → let r = add_role id role owner held t in Post Anything (λ _. Adding id roles) r.0 r.1
unfolding add_role
add-Adding id role roles none held t a = tt
add-Adding id role roles (some u) true t a = tt
add-Adding id role roles (some u) false t a = record {
  unique = a.unique;
  holder = a.holder;
  row = a.row;
  is_row = a.is_row;
  active = a.active;
  admin = ground (
    arith,
    roles_of-append a.holder id role t.user_roles,
    a.admin,
    has_role-append role_admin (roles_of a.holder t.user_roles) (role ∷ []),
    has_role-step role_admin role roles,
    has_role-step role_admin role [],
    has_role-nil role_admin,
    eq_iff a.holder id,
    eq_iff id a.holder,
  );
}

insert_user_roles-Adding :
    (id : String) (roles : List Role)
    → Ensures (Adding id roles) Anything (λ _. HasAdmin) (insert_user_roles id roles)
unfolding insert_user_roles
insert_user_roles-Adding id [] = Ensures-pure _ (Adding-HasAdmin id)
insert_user_roles-Adding id (role ∷ roles) =
    Ensures-bind _ _
      (Ensures-statement {Q = λ _. Adding id roles} _ _ (λ now t. add-Adding id role roles _ _ t)
        λ t a. tt)
      λ _. insert_user_roles-Adding id roles

pub update_roles-HasAdmin :
    (id : String) (roles : List Role)
    → Ensures
        (Allows id (has_role role_admin roles))
        HasAdmin
        (λ _. HasAdmin)
        (update_roles id roles)
unfolding update_roles
update_roles-HasAdmin id roles =
    Ensures-transaction _
      (Ensures-bind _ _
        (Ensures-statement {Q = λ _. Adding id roles} _ _ (λ now. Allows-Adding id roles) λ t a. tt)
        λ _. insert_user_roles-Adding id roles)
      λ t. Allows-HasAdmin id t (has_role role_admin roles)

appended_row :
    (us : List User) (u row : User) (j : String)
    → find user_id u.id us ≡ none
    → find user_id j us ≡ some row
    → find user_id j (us ++ u ∷ []) ≡ some row
appended_row us u row j h hrow = ground (arith, find-append user_id j us u h, eq_iff u.id j)

add_user-Adding :
    (u : User) (roles : List Role) (clash same : Option User) (t : Tables)
    → find user_id u.id t.users ≡ clash
    → HasAdmin t
    → let r = add_user u clash same t in Post Anything (λ _. Adding u.id roles) r.0 r.1
unfolding add_user
add_user-Adding u roles none none t e h = HasAdmin-Adding u.id roles _ (record {
  unique = distinct-append user_id t.users u e h.unique;
  holder = h.holder;
  row = h.row;
  is_row = appended_row t.users u h.row h.holder e h.is_row;
  is_admin = h.is_admin;
})
add_user-Adding u roles none (some v) t e h = tt
add_user-Adding u roles (some v) same t e h = tt

pub create-HasAdmin :
    (u : User) (roles : List Role) → Ensures HasAdmin HasAdmin (λ _. HasAdmin) (create u roles)
unfolding create
create-HasAdmin u roles =
    Ensures-transaction _
      (Ensures-bind _ _
        (Ensures-statement {Q = λ _. Adding u.id roles} _ _
          (λ now t. add_user-Adding u roles _ _ t refl) λ t h. tt)
        λ _. insert_user_roles-Adding u.id roles)
      λ t h. h
