-- ===== src/Admin/LastAdmin.antt =====
-- The guard of the last active administrator in internal/api/admin_handlers.go, on the tables.
use kariz.Prelude.{
  ℕ, ◌≡◌, refl, subst, String, Bool, true, false, not, ◌||◌, some, ltb, length, select, arith,
  eq_iff, ◌=ₛ◌, if◌then◌else◌, Bool-cases, inl, inr,
}
use kariz.Models.User.{User}
use kariz.Database.Rows.{
  find, modify, distinct, find-modify, distinct-modify, find-counted, key-find,
}
use kariz.Auth.{Tables}
use kariz.Auth.Users.{user_id, is_active_admin, is_counted, rehashed_row}

-- IDs are distinct, and some user is active and has the role `admin`.
pub record HasAdmin (t : Tables) : Type 0 where
  pub unique : distinct user_id t.users ≡ true
  pub holder : String
  pub row : User
  pub is_row : find user_id holder t.users ≡ some row
  pub is_admin : is_active_admin t.user_roles row ≡ true

-- One of them stays, when what `b` tells of the user `id` is made true of it, and no other user changes.
pub record Allows (id : String) (b : Bool) (t : Tables) : Type 0 where
  pub unique : distinct user_id t.users ≡ true
  pub holder : String
  pub row : User
  pub is_row : find user_id holder t.users ≡ some row
  pub is_admin : is_active_admin t.user_roles row ≡ true
  pub allowed : (not (holder =ₛ id) || b) ≡ true

-- The user as it was read.
abbrev pub Found : String → User → Tables → Type 0
Found id u t = (find user_id id t.users ≡ some u) × HasAdmin t

module _ (id : String) (t : Tables) where
  pub Allows-HasAdmin : (b : Bool) → Allows id b t → HasAdmin t
  Allows-HasAdmin b a = record {
    unique = a.unique;
    holder = a.holder;
    row = a.row;
    is_row = a.is_row;
    is_admin = a.is_admin;
  }

  pub HasAdmin-Allows :
      (h : HasAdmin t) (b : Bool) → (not (h.holder =ₛ id) || b) ≡ true → Allows id b t
  HasAdmin-Allows h b allowed = record {
    unique = h.unique;
    holder = h.holder;
    row = h.row;
    is_row = h.is_row;
    is_admin = h.is_admin;
    allowed = allowed;
  }

  pub Allows-weaken : (b c : Bool) → (not b || c) ≡ true → Allows id b t → Allows id c t
  Allows-weaken b c h a = record {
    unique = a.unique;
    holder = a.holder;
    row = a.row;
    is_row = a.is_row;
    is_admin = a.is_admin;
    allowed = ground (arith, a.allowed, h);
  }

  -- What the user is, if it is the administrator that is known.
  same_row :
      (u row : User) (j : String)
      → find user_id id t.users ≡ some u
      → find user_id j t.users ≡ some row
      → j ≡ id
      → row ≡ u
  same_row u row j hu hrow e = cc

  counted_admin :
      (row : User) → is_counted id t.user_roles row ≡ true → is_active_admin t.user_roles row ≡ true
  counted_admin row h = ground arith

  counted_other :
      (row : User) (j : String)
      → is_counted id t.user_roles row ≡ true
      → (id =ₛ "") ≡ false
      → row.id ≡ j
      → (not (j =ₛ id) || false) ≡ true
  counted_other row j h path e = ground (arith, e)

  holder_allowed :
      (u row : User) (j : String) (b : Bool)
      → find user_id id t.users ≡ some u
      → find user_id j t.users ≡ some row
      → (row ≡ u → b ≡ true)
      → (not (j =ₛ id) || b) ≡ true
  holder_allowed u row j b hu hrow h = elim (Bool-cases (j =ₛ id)) [
    | inl e ↦ rw (e, h (same_row u row j hu hrow (ground (arith, e, eq_iff j id)))) refl
    | inr e ↦ rw e refl
  ]

  admin_row :
      (u row : User)
      → is_active_admin t.user_roles row ≡ true
      → row ≡ u
      → is_active_admin t.user_roles u ≡ true
  admin_row u row h e = subst (λ v. is_active_admin t.user_roles v ≡ true) e h

  pub Allows-active : (u : User) → Found id u t → Allows id u.is_active t
  Allows-active u found =
      let h = found.1 in
      HasAdmin-Allows h u.is_active (
        holder_allowed u h.row h.holder u.is_active found.0 h.is_row
          λ e. ground (arith, admin_row u h.row h.is_admin e))

  -- A user that is no active administrator may be changed.
  pub Allows-other :
      (u : User) → Found id u t → is_active_admin t.user_roles u ≡ false → Allows id false t
  Allows-other u found other =
      let h = found.1 in
      HasAdmin-Allows h false (
        holder_allowed u h.row h.holder false found.0 h.is_row
          λ e. ground (arith, other, admin_row u h.row h.is_admin e))

  pub Allows-counted :
      HasAdmin t
      → (id =ₛ "") ≡ false
      → ltb 0 (length (select (is_counted id t.user_roles) t.users)) ≡ true
      → Allows id false t
  Allows-counted h path counted =
      let c = find-counted user_id (is_counted id t.user_roles) t.users h.unique counted in
      record {
        unique = h.unique;
        holder = c.0;
        row = c.1.0;
        is_row = c.1.1.0;
        is_admin = counted_admin c.1.0 c.1.1.1;
        allowed = counted_other c.1.0 c.0 c.1.1.1 path (key-find user_id c.0 t.users c.1.0 c.1.1.0);
      }

-- What the statements leave.
module _ (id : String) (t : Tables) where
  modified_row :
      (f : User → User) (j : String) (row : User)
      → ((r : User) → (f r).id ≡ r.id)
      → find user_id j t.users ≡ some row
      → find user_id j (modify user_id id f t.users) ≡ some (if id =ₛ j then f row else row)
  modified_row f j row keeps h = ground (arith, find-modify user_id j id f t.users keeps)

  -- The columns that a change of a user may set, as the roles do not depend on them.
  modified_admin :
      (f : User → User) (j : String) (row : User)
      → (f row).id ≡ row.id
      → is_active_admin t.user_roles row ≡ true
      → (not (j =ₛ id) || (f row).is_active) ≡ true
      → is_active_admin t.user_roles (if id =ₛ j then f row else row) ≡ true
  modified_admin f j row keeps h allowed = ground (arith, eq_iff id j, eq_iff j id, keeps)

  pub modify-HasAdmin :
      (f : User → User) (b : Bool)
      → ((r : User) → (f r).id ≡ r.id)
      → ((r : User) → (f r).is_active ≡ b)
      → Allows id b t
      → HasAdmin (record t { users = modify user_id id f t.users })
  modify-HasAdmin f b keeps active a = record {
    unique = distinct-modify user_id id f t.users keeps a.unique;
    holder = a.holder;
    row = if id =ₛ a.holder then f a.row else a.row;
    is_row = modified_row f a.holder a.row keeps a.is_row;
    is_admin =
        modified_admin f a.holder a.row (keeps a.row) a.is_admin (rw (active a.row) a.allowed);
  }

  rehashed_admin :
      (f : User → User) (j : String) (row : User)
      → (f row).id ≡ row.id
      → (f row).is_active ≡ row.is_active
      → is_active_admin t.user_roles row ≡ true
      → is_active_admin t.user_roles (if id =ₛ j then f row else row) ≡ true
  rehashed_admin f j row keeps active h = ground (arith, keeps, active)

  pub rehash-Allows :
      (hash : String) (now : ℕ) (b : Bool)
      → Allows id b t
      → Allows id b (record t { users = modify user_id id (rehashed_row hash now) t.users })
  rehash-Allows hash now b a = record {
    unique = distinct-modify user_id id (rehashed_row hash now) t.users (λ r. refl) a.unique;
    holder = a.holder;
    row = if id =ₛ a.holder then rehashed_row hash now a.row else a.row;
    is_row = modified_row (rehashed_row hash now) a.holder a.row (λ r. refl) a.is_row;
    is_admin = rehashed_admin (rehashed_row hash now) a.holder a.row refl refl a.is_admin;
    allowed = a.allowed;
  }
