-- ===== src/Catalog/Repository.antt =====
-- internal/catalog/repository.go: the statements on the tables `command_entries` and `command_roles`.
use kariz.Prelude.{
  ℕ, String, Bool, true, false, not, Option, none, some, List, [], ◌∷◌, ◌++◌, select, ◌=ₛ◌, ◌+ₛ◌,
  if◌then◌else◌,
}
use kariz.Models.Errors.{Error, wrapped, outside, lit, shown}
use kariz.Models.User.{Role}
use kariz.Models.Command.{CommandEntry}
use kariz.Database.{Result, ok, err, Exec, ◌>>=◌, ◌>>◌, pure, time_now, statement, transaction}
use kariz.Database.Rows.{find, modify}
use kariz.Auth.{has_role}
use kariz.Auth.Users.{Collation, duplicate_key, foreign_key, roles_of}

-- The rows of `command_entries` have no roles. Columns of type JSONB are kept as what they decode to.
pub record Tables : Type 0 where
  pub entries : List CommandEntry
  pub command_roles : List (String × Role)

abbrev pub entry_id : CommandEntry → String
entry_id e = e.id

abbrev pub row_of : CommandEntry → CommandEntry
row_of e = record e { allowed_roles = [] }

unfoldable pub named : String → List CommandEntry → Option CommandEntry
named name [] = none
named name (e ∷ es) = if e.name =ₛ name then some e else named name es

-- The keys of the table are `id` and `name`.
unfoldable pub add_entry :
    CommandEntry → Option CommandEntry → Option CommandEntry → Tables → Result (Unit {0}) × Tables
add_entry e none none t = (ok tt, record t { entries = t.entries ++ row_of e ∷ [] })
add_entry e none (some same) t = (err (wrapped "insert command entry" duplicate_key), t)
add_entry e (some clash) same t = (err (wrapped "insert command entry" duplicate_key), t)

abbrev pub insert_entry : CommandEntry → Exec Tables (Unit {0})
insert_entry e =
    statement "insert command entry"
      (λ now t. add_entry e (find entry_id e.id t.entries) (named e.name t.entries) t)

abbrev role_context : Role → String
role_context role = "insert command role " +ₛ role

-- `command_id` refers to an entry, and an entry has a role once.
unfoldable pub add_role :
    String → Role → Option CommandEntry → Bool → Tables → Result (Unit {0}) × Tables
add_role id role none held t = (err (wrapped (role_context role) foreign_key), t)
add_role id role (some e) true t = (err (wrapped (role_context role) duplicate_key), t)
add_role id role (some e) false t =
    (ok tt, record t { command_roles = t.command_roles ++ (id, role) ∷ [] })

abbrev pub insert_role : String → Role → Exec Tables (Unit {0})
insert_role id role = statement (role_context role) (λ now t.
    add_role id role (find entry_id id t.entries) (has_role role (roles_of id t.command_roles)) t)

unfoldable pub insert_roles : String → List Role → Exec Tables (Unit {0})
insert_roles id [] = pure tt
insert_roles id (role ∷ roles) = insert_role id role >> insert_roles id roles

unfoldable pub create : CommandEntry → List Role → Exec Tables (Unit {0})
create e roles = transaction (insert_entry e >> insert_roles e.id roles)

unfoldable pub get_roles : Collation → String → Exec Tables (List Role)
get_roles order id =
    statement "get command roles" (λ now t. (ok (order.by_role (roles_of id t.command_roles)), t))

unfoldable pub with_roles : Collation → Option CommandEntry → Exec Tables (Option CommandEntry)
with_roles order none = pure none
with_roles order (some row) = do
  roles ← get_roles order row.id
  pure (some (record row { allowed_roles = roles }))

unfoldable pub get_by_id : Collation → String → Exec Tables (Option CommandEntry)
get_by_id order id = do
  row ← statement "get command by id" (λ now t. (ok (find entry_id id t.entries), t))
  with_roles order row

unfoldable pub get_by_name : Collation → String → Exec Tables (Option CommandEntry)
get_by_name order name = do
  row ← statement "get command by name" (λ now t. (ok (named name t.entries), t))
  with_roles order row

abbrev pub not_found : String → Error
not_found id = outside (lit "command entry not found: " ∷ shown id ∷ [])

-- All columns but `id` and `created_at`.
abbrev pub updated_row : CommandEntry → CommandEntry → CommandEntry
updated_row e r = record (row_of e) { id = r.id; created_at = r.created_at }

-- Another entry has the name.
abbrev pub is_taken : String → Option CommandEntry → Bool
is_taken id none = false
is_taken id (some same) = not (same.id =ₛ id)

unfoldable pub change_entry :
    CommandEntry → Option CommandEntry → Bool → Tables → Result (Unit {0}) × Tables
change_entry e none taken t = (err (not_found e.id), t)
change_entry e (some row) true t = (err (wrapped "update command entry" duplicate_key), t)
change_entry e (some row) false t =
    (ok tt, record t { entries = modify entry_id e.id (updated_row e) t.entries })

abbrev pub update_entry : CommandEntry → Exec Tables (Unit {0})
update_entry e = statement "update command entry" (λ now t.
    change_entry e (find entry_id e.id t.entries) (is_taken e.id (named e.name t.entries)) t)

abbrev pub without_roles : String → Tables → Tables
without_roles id t = record t { command_roles = select (λ row. not (row.0 =ₛ id)) t.command_roles }

abbrev pub delete_roles : String → Exec Tables (Unit {0})
delete_roles id = statement "delete old command roles" (λ now t. (ok tt, without_roles id t))

unfoldable pub update : CommandEntry → List Role → Exec Tables (Unit {0})
update e roles = transaction do update_entry e; delete_roles e.id; insert_roles e.id roles

abbrev pub inactive_row : ℕ → CommandEntry → CommandEntry
inactive_row now r = record r { is_active = false; updated_at = now }

unfoldable pub drop_entry : String → ℕ → Option CommandEntry → Tables → Result (Unit {0}) × Tables
drop_entry id now none t = (err (not_found id), t)
drop_entry id now (some row) t =
    (ok tt, record t { entries = modify entry_id id (inactive_row now) t.entries })

unfoldable pub deactivate : String → Exec Tables (Unit {0})
deactivate id = do
  at ← time_now
  statement "deactivate command" (λ now t. drop_entry id at (find entry_id id t.entries) t)
