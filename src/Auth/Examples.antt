-- ===== src/Auth/Examples.antt =====
-- Tests and instances for internal/auth.
use kariz.Prelude.{
  ℕ, ◌≡◌, refl, ap, String, Bool, true, false, ◌&&◌, none, some, List, [], ◌∷◌, ◌==◌, arith, eq_iff,
  ◌=ₛ◌,
}
use kariz.Models.Errors.{outside, lit}
use kariz.Models.User.{User, Role, UserProfile, SessionData, LoginCredentials}
use kariz.Database.{Result, ok, err, World, ◌>>=◌, elapsed_of, fault_of, later_of, delay}
use kariz.Database.Rows.{find}
use kariz.Auth.{Tables}
use kariz.Auth.Users.{Collation, named, roles_of, get_by_username, get_user_roles, profile}
use kariz.Auth.Sessions
use kariz.Auth.Sessions.{add_session, live}
use kariz.Auth.Store.{SessionCodec, Fresh, create, get, delete, clean_expired, decoded}
use kariz.Auth.Store.Calls.{
  Call, creates, deletes, cleans, waits, steps, answered, empty_store, get-steps,
}
use kariz.Auth.Provider.{Bcrypt, authenticate, checked}
use kariz.Auth.Middleware.{auth_middleware, unauthorized}
use kariz.Auth.Handlers.{Cookie, logged_in, login}
use kariz.Auth.Admission.{admitted, while_live, login-auth_middleware}
use kariz.Auth.Authentic.{IsAuthentic, login-IsAuthentic}

abbrev order : Collation
order = record { by_role = (λ rs. rs); by_username = (λ us. us); has_role-by_role = (λ r rs. refl) }

-- A hash is the password itself.
abbrev bcrypt : Bcrypt
bcrypt = record { generate = (λ salt p. ok p); compare = (λ h p. h =ₛ p) }

-- The one session that the encoder of these tests can write.
abbrev root_session : SessionData
root_session = record {
  user_id = "u1";
  username = "root";
  roles = "admin" ∷ [];
  created_at = 10;
  expires_at = 110;
}

abbrev is_admin_only : List Role → Bool
is_admin_only [] = false
is_admin_only (r ∷ []) = r =ₛ "admin"
is_admin_only (r ∷ s ∷ rs) = false

abbrev is_root : SessionData → Bool
is_root d =
    d.user_id =ₛ "u1"
    && (d.username =ₛ "root"
        && (is_admin_only d.roles && (d.created_at == 10 && d.expires_at == 110)))

abbrev write_root : Bool → Result String
write_root true = ok "root"
write_root false = err (outside (lit "not written" ∷ []))

only_admin : (rs : List Role) → is_admin_only rs ≡ true → rs ≡ "admin" ∷ []
only_admin [] h = ground (arith, h)
only_admin (r ∷ []) h = ground (arith, h, eq_iff r "admin")
only_admin (r ∷ s ∷ rs) h = ground (arith, h)

same_data :
    (u n : String) (rs : List Role) (c e : ℕ)
    → u ≡ "u1"
    → n ≡ "root"
    → rs ≡ "admin" ∷ []
    → c ≡ 10
    → e ≡ 110
    → root_session
      ≡ record { user_id = u; username = n; roles = rs; created_at = c; expires_at = e }
same_data u n rs c e hu hn hrs hc he = cc

root_data : (d : SessionData) → is_root d ≡ true → root_session ≡ d
root_data d h =
    same_data d.user_id d.username d.roles d.created_at d.expires_at
      (ground (arith, h, eq_iff d.user_id "u1")) (ground (arith, h, eq_iff d.username "root"))
      (only_admin d.roles (ground (arith, h))) (ground (arith, h)) (ground (arith, h))

written :
    (d : SessionData) (b : Bool) (text : String)
    → is_root d ≡ b
    → write_root b ≡ ok text
    → ok root_session ≡ ok d
written d true text h e = ap ok (root_data d h)
written d false text h e = absurd (ground (arith, e))

abbrev codec : SessionCodec
codec = record {
  marshal = (λ d. write_root (is_root d));
  jsonb = (λ text. text);
  unmarshal = (λ text. ok root_session);
  unmarshal-marshal = (λ d text. written d (is_root d) text refl);
}

abbrev root : User
root = record {
  id = "u1";
  username = "root";
  password_hash = "secret";
  email = "root@example.org";
  is_active = true;
  created_at = 0;
  updated_at = 0;
}

abbrev world : World Tables
world = record {
  tables = record { users = root ∷ []; user_roles = ("u1", "admin") ∷ []; sessions = [] };
  clock = 10;
  latencies = [];
}

abbrev fresh : Fresh
fresh = record { token = ok "t0"; uuid = "s0" }

abbrev credentials : LoginCredentials
credentials = record { username = "root"; password = "secret" }

abbrev answer : Cookie × UserProfile
answer = (record { value = "t0"; max_age = some 0 }, profile root ("admin" ∷ []))

login_run : (login order bcrypt codec 100 fresh (some credentials) world).0 ≡ ok answer
unfolding login authenticate get_by_username named checked get_user_roles roles_of logged_in create
    Sessions.create add_session find ◌>>=◌ fault_of elapsed_of later_of
login_run = refl

-- The cookie after 99 nanoseconds, and after 100.
abbrev after : ℕ → World Tables
after n = (delay n (login order bcrypt codec 100 fresh (some credentials) world).1).1

login-auth_middleware_example :
    (auth_middleware codec (some "t0") (after 99)).0
    ≡ admitted codec (while_live 109 (record root_session { user_id = "u1" }))
unfolding login delay ◌>>=◌ authenticate get_by_username fault_of checked named get_user_roles
    later_of logged_in create roles_of elapsed_of Sessions.create add_session find
login-auth_middleware_example =
    login-auth_middleware order bcrypt codec 100 fresh credentials world (after 99) answer login_run
      refl refl tt

login-IsAuthentic_example :
    IsAuthentic order bcrypt
      (root ∷ [])
      (("u1", "admin") ∷ [])
      credentials
      (profile root ("admin" ∷ []))
login-IsAuthentic_example =
    login-IsAuthentic order bcrypt codec 100 fresh credentials world answer login_run

-- A login at time 10, half its life, then the removal of expired sessions and a logout of another token.
abbrev calls : List Call
calls = creates fresh root_session ∷ waits 50 ∷ cleans ∷ deletes "t1" ∷ []

get-steps_example :
    (get codec "t0" (steps codec 100 calls world empty_store).0).0
    ≡ answered codec 100 none (some root_session)
unfolding create delay ◌>>=◌ Sessions.create add_session find clean_expired Sessions.clean_expired
    delete Sessions.delete fault_of later_of elapsed_of
get-steps_example = get-steps codec 100 calls "t0" world refl

late_run :
    (auth_middleware codec (some "t0") (after 100)).0
    ≡ err (unauthorized "session expired or invalid")
unfolding auth_middleware get Sessions.get_by_token live decoded login authenticate get_by_username
    named checked get_user_roles roles_of logged_in create Sessions.create add_session find ◌>>=◌
    fault_of elapsed_of later_of delay
late_run = refl
