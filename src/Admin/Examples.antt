-- ===== src/Admin/Examples.antt =====
-- Tests and instances for internal/api/admin_handlers.go.
use kariz.Prelude.{ℕ, ◌≡◌, refl, String, true, none, some, List, [], ◌∷◌, ◌=ₛ◌}
use kariz.Models.User.{User, UserProfile, Session}
use kariz.Database.{Result, ok, err, World, ◌>>=◌, transaction, fault_of, later_of, elapsed_of}
use kariz.Database.Rows.{find, modify, distinct}
use kariz.Auth.{Tables, has_role}
use kariz.Auth.Users
use kariz.Auth.Users.{Collation, roles_of, add_role, insert_user_roles, profile}
use kariz.Auth.Sessions
use kariz.Auth.Provider.{Bcrypt}
use kariz.Admin.{
  last_admin, is_own, refuse_zero, guard_admin, invalid_reply, ensure_not_last_admin,
  deactivate_user, guard_roles, update_user_roles,
}
use kariz.Admin.Roles.{
  parse_from, parse_and_validate_roles, Parsed, parse_and_validate_roles-Parsed,
}
use kariz.Admin.LastAdmin.{HasAdmin}
use kariz.Admin.Calls.{AdminCall, deactivates, assigns, lists, serves, serves-HasAdmin}
use kariz.Admin.Revocation
use kariz.Admin.Revocation.{NoSession, served, served-Revoked}

abbrev order : Collation
order = record { by_role = (λ rs. rs); by_username = (λ us. us); has_role-by_role = (λ r rs. refl) }

abbrev bcrypt : Bcrypt
bcrypt = record { generate = (λ salt p. ok p); compare = (λ h p. h =ₛ p) }

abbrev user : String → String → User
user id name = record {
  id = id;
  username = name;
  password_hash = "secret";
  email = "";
  is_active = true;
  created_at = 0;
  updated_at = 0;
}

abbrev session : Session
session = record {
  id = "s0";
  user_id = "u2";
  session_token = "t0";
  session_data = "";
  expires_at = 100;
  created_at = 0;
}

abbrev world : World Tables
world = record {
  tables = record {
    users = user "u1" "root" ∷ user "u2" "eve" ∷ [];
    user_roles = ("u1", "admin") ∷ ("u2", "admin") ∷ [];
    sessions = session ∷ [];
  };
  clock = 10;
  latencies = [];
}

world-HasAdmin : HasAdmin world.tables
unfolding distinct find has_role roles_of
world-HasAdmin = record {
  unique = refl;
  holder = "u1";
  row = user "u1" "root";
  is_row = refl;
  is_admin = refl;
}

-- One administrator is deactivated, and the roles of the other are not taken away.
abbrev calls : List AdminCall
calls = deactivates none "u2" ∷ assigns "u1" (some ("qa" ∷ [])) ∷ lists ∷ []

serves-HasAdmin_example : HasAdmin (serves order bcrypt calls world).tables
serves-HasAdmin_example =
    serves-HasAdmin order bcrypt calls world (refl, (refl, (tt, tt))) world-HasAdmin

abbrev deactivated_world : World Tables
deactivated_world = (deactivate_user order none "u2" world).1

last_run : (update_user_roles order "u1" (some ("qa" ∷ [])) deactivated_world).0 ≡ err last_admin
unfolding update_user_roles parse_and_validate_roles parse_from has_role invalid_reply guard_roles
    ensure_not_last_admin guard_admin refuse_zero deactivate_user is_own Users.get_by_id
    Users.get_user_roles Users.count_active_admins Users.update Sessions.delete_by_user_id ◌>>=◌
    find modify roles_of fault_of later_of elapsed_of
last_run = refl

-- Two roles, one of them twice.
abbrev assigned : Result (ℕ × UserProfile)
assigned = ok (200, profile (user "u2" "eve") ("qa" ∷ "data" ∷ []))

assigned_run :
    (served order bcrypt "u2" (Revocation.assigns ("qa" ∷ "data" ∷ "qa" ∷ [])) world).0 ≡ assigned
unfolding update_user_roles parse_and_validate_roles parse_from has_role invalid_reply guard_roles
    ensure_not_last_admin guard_admin refuse_zero Users.get_by_id Users.get_user_roles
    Users.count_active_admins Users.update_roles insert_user_roles add_role transaction
    Sessions.delete_by_user_id ◌>>=◌ find roles_of fault_of later_of elapsed_of
assigned_run = refl

served-Revoked_example :
    NoSession "u2"
      (served order bcrypt "u2" (Revocation.assigns ("qa" ∷ "data" ∷ "qa" ∷ [])) world).1.tables
served-Revoked_example =
    served-Revoked order bcrypt "u2" (Revocation.assigns ("qa" ∷ "data" ∷ "qa" ∷ [])) world
      (200, profile (user "u2" "eve") ("qa" ∷ "data" ∷ [])) tt assigned_run

parse_and_validate_roles-Parsed_example :
    Parsed [] ("qa" ∷ "boss" ∷ []) (parse_and_validate_roles ("qa" ∷ "boss" ∷ []))
parse_and_validate_roles-Parsed_example = parse_and_validate_roles-Parsed ("qa" ∷ "boss" ∷ [])
