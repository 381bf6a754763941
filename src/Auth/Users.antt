-- ===== src/Auth/Users.antt =====
-- internal/auth/repository.go: the statements on the tables `users` and `user_roles`.
use kariz.Prelude.{
  ℕ, ◌≡◌, String, Bool, true, false, not, ◌&&◌, ◌||◌, Option, none, some, List, [], ◌∷◌, ◌++◌,
  length, select, ◌=ₛ◌, ◌+ₛ◌, if◌then◌else◌,
}
use kariz.Models.Errors.{Error, wrapped, outside, lit}
use kariz.Models.User.{User, UserProfile, Role, role_admin}
use kariz.Database.{Result, ok, err, Exec, ◌>>=◌, ◌>>◌, pure, statement, transaction}
use kariz.Database.Rows.{find, modify}
use kariz.Auth.{Tables, has_role}

-- How the database orders texts. The order of a list has the same elements.
pub record Collation : Type 0 where
  pub by_role : List Role → List Role
  pub by_username : List User → List User
  pub has_role-by_role :
      (role : Role) (rs : List Role) → has_role role (by_role rs) ≡ has_role role rs

abbrev pub duplicate_key : Error
duplicate_key = outside (lit "pq: duplicate key value violates unique constraint" ∷ [])

abbrev pub foreign_key : Error
foreign_key = outside (lit "pq: insert or update violates foreign key constraint" ∷ [])

abbrev pub user_id : User → String
user_id u = u.id

unfoldable pub named : String → List User → Option User
named name [] = none
named name (u ∷ us) = if u.username =ₛ name then some u else named name us

-- The keys of the table are `id` and `username`.
unfoldable pub add_user : User → Option User → Option User → Tables → Result (Unit {0}) × Tables
add_user u none none t = (ok tt, record t { users = t.users ++ u ∷ [] })
add_user u none (some v) t = (err (wrapped "insert user" duplicate_key), t)
add_user u (some v) same t = (err (wrapped "insert user" duplicate_key), t)

abbrev pub insert_user : User → Exec Tables (Unit {0})
insert_user u =
    statement "insert user"
      (λ now t. add_user u (find user_id u.id t.users) (named u.username t.users) t)

unfoldable pub roles_of : String → List (String × Role) → List Role
roles_of id [] = []
roles_of id (row ∷ rows) = let rest = roles_of id rows in if row.0 =ₛ id then row.1 ∷ rest else rest

abbrev role_context : Role → String
role_context role = "insert user role " +ₛ role

-- `user_id` refers to a user, and a user has a role once.
unfoldable pub add_role : String → Role → Option User → Bool → Tables → Result (Unit {0}) × Tables
add_role id role none held t = (err (wrapped (role_context role) foreign_key), t)
add_role id role (some u) true t = (err (wrapped (role_context role) duplicate_key), t)
add_role id role (some u) false t =
    (ok tt, record t { user_roles = t.user_roles ++ (id, role) ∷ [] })

abbrev pub insert_user_role : String → Role → Exec Tables (Unit {0})
insert_user_role id role = statement (role_context role) (λ now t.
    add_role id role (find user_id id t.users) (has_role role (roles_of id t.user_roles)) t)

unfoldable pub insert_user_roles : String → List Role → Exec Tables (Unit {0})
insert_user_roles id [] = pure tt
insert_user_roles id (role ∷ roles) = insert_user_role id role >> insert_user_roles id roles

unfoldable pub create : User → List Role → Exec Tables (Unit {0})
create u roles = transaction (insert_user u >> insert_user_roles u.id roles)

unfoldable pub get_by_id : String → Exec Tables (Option User)
get_by_id id = statement "get user by id" (λ now t. (ok (find user_id id t.users), t))

unfoldable pub get_by_username : String → Exec Tables (Option User)
get_by_username name = statement "get user by username" (λ now t. (ok (named name t.users), t))

unfoldable pub get_user_roles : Collation → String → Exec Tables (List Role)
get_user_roles order id =
    statement "get user roles" (λ now t. (ok (order.by_role (roles_of id t.user_roles)), t))

abbrev pub without_roles : String → Tables → Tables
without_roles id t = record t { user_roles = select (λ row. not (row.0 =ₛ id)) t.user_roles }

unfoldable pub update_roles : String → List Role → Exec Tables (Unit {0})
update_roles id roles = transaction (
    statement "delete existing user roles" (λ now t. (ok tt, without_roles id t))
    >> insert_user_roles id roles)

abbrev pub profile : User → List Role → UserProfile
profile u roles = record {
  id = u.id;
  username = u.username;
  email = u.email;
  roles = roles;
  is_active = u.is_active;
}

unfoldable pub profiles : Collation → List User → Exec Tables (List UserProfile)
profiles order [] = pure []
profiles order (u ∷ us) = do
  roles ← get_user_roles order u.id
  rest ← profiles order us
  pure (profile u roles ∷ rest)

unfoldable pub list : Collation → Exec Tables (List UserProfile)
list order = do
  users ← statement "list users" (λ now t. (ok (order.by_username t.users), t))
  profiles order users

-- The columns that `Update` sets, and those of `UpdatePassword`.
abbrev pub updated_row : User → User → User
updated_row u r = record r { email = u.email; is_active = u.is_active; updated_at = u.updated_at }

abbrev pub rehashed_row : String → ℕ → User → User
rehashed_row hash now r = record r { password_hash = hash; updated_at = now }

-- The rows affected are not counted.
unfoldable pub update : User → Exec Tables (Unit {0})
update u =
    statement "update user"
      (λ now t. (ok tt, record t { users = modify user_id u.id (updated_row u) t.users }))

unfoldable pub update_password : String → String → Exec Tables (Unit {0})
update_password id hash =
    statement "update password"
      (λ now t. (ok tt, record t { users = modify user_id id (rehashed_row hash now) t.users }))

-- The rows of `users` that `countActiveAdmins` counts; their IDs are distinct.
abbrev pub is_active_admin : List (String × Role) → User → Bool
is_active_admin rows u = u.is_active && has_role role_admin (roles_of u.id rows)

abbrev pub is_counted : String → List (String × Role) → User → Bool
is_counted excluded rows u = is_active_admin rows u && (excluded =ₛ "" || not (u.id =ₛ excluded))

unfoldable pub count_active_admins : String → Exec Tables ℕ
count_active_admins excluded =
    statement "count active admins"
      (λ now t. (ok (length (select (is_counted excluded t.user_roles) t.users)), t))
