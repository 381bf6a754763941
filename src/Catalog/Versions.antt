-- ===== src/Catalog/Versions.antt =====
-- What an update of internal/catalog/service.go stores.
use kariz.Prelude.{
  ℕ, ◌≡◌, ◌∙◌, refl, sym, ap, subst, ◌+◌, String, Bool, true, false, Option, none, some, List, [],
  ◌∷◌, ◌++◌, arith, eq_iff, ◌=ₛ◌,
}
use kariz.Models.Errors.{Error}
use kariz.Models.User.{Role}
use kariz.Models.Command.{CommandEntry, UpdateCommandInput}
use kariz.Database.{ok, World, Exec, pure, fail}
use kariz.Database.Rows.{find, modify, find-modify, key-find}
use kariz.Database.Triples.{
  Post, Ensures, Ensures-pure, Ensures-fail, Ensures-require, Ensures-statement, Ensures-or_wrap,
  Ensures-bind, Ensures-time_now, Ensures-transaction, Ensures-if, Ensures-fact, Ensures-answer,
  Anything,
}
use mathlib.Core.List.{append-nil, append_assoc}
use kariz.Auth.Users.{Collation, roles_of}
use kariz.Auth.RoleLists.{roles_of-append, roles_of-select}
use kariz.Catalog.{is_blank}
use kariz.Catalog.Repository
use kariz.Catalog.Repository.{
  Tables, entry_id, row_of, add_role, without_roles, insert_roles, with_roles, get_roles,
  updated_row, change_entry,
}
use kariz.Catalog.Service.{
  invalid, entry_error, refuse, refuse_blank, refuse_no_role, refuse_taken, refuse_used, check_name,
  check_roles, next_entry, update_found, update_command,
}

-- The rows of `command_entries` are these.
abbrev Fixed : List CommandEntry → Tables → Type 0
Fixed es t = t.entries ≡ es

-- The row of the entry is the entry, with its roles in the other table.
abbrev Stored : CommandEntry → Tables → Type 0
Stored e t = find entry_id e.id t.entries ≡ some (row_of e)

eq_refl : (s : String) → (s =ₛ s) ≡ true
eq_refl s = ground (arith, eq_iff s s)

-- The same, and the roles of the other table are these.
abbrev StoredWith : CommandEntry → List Role → Tables → Type 0
StoredWith e roles t = Stored e t × (roles_of e.id t.command_roles ≡ roles)

add_role-StoredWith :
    (e : CommandEntry) (before : List Role) (role : Role) (owner : Option CommandEntry)
    (held : Bool) (t : Tables)
    → StoredWith e before t
    → let r = add_role e.id role owner held t in
      Post Anything (λ _. StoredWith e (before ++ role ∷ [])) r.0 r.1
unfolding add_role
add_role-StoredWith e before role none held t s = tt
add_role-StoredWith e before role (some x) true t s = tt
add_role-StoredWith e before role (some x) false t (s, roles) =
    (s, ground (arith, roles_of-append e.id e.id role t.command_roles, eq_refl e.id, roles))

insert_roles-StoredWith :
    (e : CommandEntry) (before roles all : List Role)
    → before ++ roles ≡ all
    → Ensures (StoredWith e before) Anything (λ _. StoredWith e all) (insert_roles e.id roles)
unfolding insert_roles
insert_roles-StoredWith e before [] all h =
    Ensures-pure _ λ t (s, r). (s, r ∙ sym (append-nil before) ∙ h)
insert_roles-StoredWith e before (role ∷ roles) all h =
    Ensures-bind _ _
      (Ensures-statement {Q = λ _. StoredWith e (before ++ role ∷ [])} _ _
        (λ now t. add_role-StoredWith e before role _ _ t) λ t s. tt)
      λ _.
        insert_roles-StoredWith e (before ++ role ∷ []) roles all
          (append_assoc before (role ∷ []) roles ∙ h)

delete_roles-StoredWith :
    (e : CommandEntry) (t : Tables) → Stored e t → StoredWith e [] (without_roles e.id t)
delete_roles-StoredWith e t s =
    (s, ground (arith, roles_of-select e.id e.id t.command_roles, eq_refl e.id))

-- The row that was read, whose key and date of creation the entry has.
abbrev Replaces : List CommandEntry → CommandEntry → CommandEntry → Type 0
Replaces es old e =
    (find entry_id e.id es ≡ some old) × ((old.id ≡ e.id) × (old.created_at ≡ e.created_at))

same_row :
    (e : CommandEntry) (x y : String) (c d : ℕ)
    → x ≡ y
    → c ≡ d
    → record (row_of e) { id = x; created_at = c } ≡ record (row_of e) { id = y; created_at = d }
same_row e x y c d hx hc = rw (hx, hc) refl

updated_path :
    (e old : CommandEntry)
    → old.id ≡ e.id
    → old.created_at ≡ e.created_at
    → updated_row e old ≡ row_of e
updated_path e old key date = same_row e old.id e.id old.created_at e.created_at key date

found_after :
    (rows : List CommandEntry) (e old : CommandEntry)
    → find entry_id e.id rows ≡ some old
    → updated_row e old ≡ row_of e
    → find entry_id e.id (modify entry_id e.id (updated_row e) rows) ≡ some (row_of e)
found_after rows e old h same =
    rw (find-modify entry_id e.id e.id (updated_row e) rows (λ r. refl), eq_refl e.id, h)
      (ap some same)

change_entry-Stored :
    (es : List CommandEntry) (e old : CommandEntry) (row : Option CommandEntry) (taken : Bool)
    (t : Tables)
    → Replaces es old e
    → Fixed es t
    → let r = change_entry e row taken t in Post Anything (λ _. Stored e) r.0 r.1
unfolding change_entry
change_entry-Stored es e old none taken t h f = tt
change_entry-Stored es e old (some row) true t h f = tt
change_entry-Stored es e old (some row) false t h f =
    found_after t.entries e old (subst (λ rows. find entry_id e.id rows ≡ some old) (sym f) h.0)
      (updated_path e old h.1.0 h.1.1)

update-Stored :
    (es : List CommandEntry) (e old : CommandEntry) (roles : List Role)
    → Replaces es old e
    → Ensures (Fixed es) Anything (λ _. StoredWith e roles) (Repository.update e roles)
unfolding Repository.update
update-Stored es e old roles h =
    Ensures-transaction _
      (Ensures-bind _ _
        (Ensures-statement {Q = λ _. Stored e} _ _ (λ now t. change_entry-Stored es e old _ _ t h)
          λ t f. tt)
        λ _.
          Ensures-bind _ _
            (Ensures-statement {Q = λ _. StoredWith e []} _ _ (λ now t. delete_roles-StoredWith e t)
              λ t s. tt)
            λ _. insert_roles-StoredWith e [] roles roles refl)
      λ t f. tt

-- The answer of an update, of the next version and of the date of the creation of the entry which was stored under the ID,
-- and what is stored now: its row, and its roles in the other table.
pub record IsUpdated (es : List CommandEntry) (id : String) (e : CommandEntry) (t : Tables)
    : Type 0 where
  pub old : CommandEntry
  pub was_stored : find entry_id id es ≡ some old
  pub version : e.version ≡ old.version + 1
  pub created_at : e.created_at ≡ old.created_at
  pub is_active : e.is_active ≡ old.is_active
  pub is_stored : find entry_id id t.entries ≡ some (row_of e)
  pub has_roles : roles_of id t.command_roles ≡ e.allowed_roles

-- An entry that was read: a row, with roles.
pub record IsRead (es : List CommandEntry) (id : String) (e : CommandEntry) : Type 0 where
  pub row : CommandEntry
  pub is_row : find entry_id id es ≡ some row
  pub key : row.id ≡ e.id
  pub version : e.version ≡ row.version
  pub created_at : row.created_at ≡ e.created_at
  pub is_active : e.is_active ≡ row.is_active

abbrev IsReadOption : List CommandEntry → String → Option CommandEntry → Type 0
IsReadOption es id none = Unit
IsReadOption es id (some e) = IsRead es id e

module _ (order : Collation) (es : List CommandEntry) where
  -- Calls that read the rows, or stop.
  abbrev Reads : {A : Type 0} → Exec Tables A → Type 0
  Reads m = Ensures (Fixed es) Anything (λ _. Fixed es) m

  get_roles-Reads : (id : String) → Reads (get_roles order id)
  unfolding get_roles
  get_roles-Reads id = Ensures-statement _ _ (λ now t f. f) λ t f. tt

  with_roles-IsRead :
      (id : String) (o : Option CommandEntry)
      → find entry_id id es ≡ o
      → Ensures (Fixed es) Anything (λ e t. IsReadOption es id e × Fixed es t) (with_roles order o)
  unfolding with_roles
  with_roles-IsRead id none h = Ensures-pure _ λ t f. (tt, f)
  with_roles-IsRead id (some row) h = Ensures-bind _ _ (get_roles-Reads row.id) λ roles.
      Ensures-pure _ λ t f. (
        record {
          row = row;
          is_row = h;
          key = refl;
          version = refl;
          created_at = refl;
          is_active = refl;
        },
        f,
      )

  get_by_id-IsRead :
      (id : String)
      → Ensures
          (Fixed es)
          Anything
          (λ e t. IsReadOption es id e × Fixed es t)
          (Repository.get_by_id order id)
  unfolding Repository.get_by_id
  get_by_id-IsRead id =
      Ensures-bind _ _
        (Ensures-statement {Q = λ o t. (find entry_id id es ≡ o) × Fixed es t} _ _
          (λ now t f. (ap (find entry_id id) (sym f), f)) λ t f. tt)
        λ o. Ensures-fact _ _ (with_roles-IsRead id o)

  with_roles-Reads : (o : Option CommandEntry) → Reads (with_roles order o)
  unfolding with_roles
  with_roles-Reads none = Ensures-pure _ λ t f. f
  with_roles-Reads (some row) =
      Ensures-bind _ _ (get_roles-Reads row.id) λ roles. Ensures-pure _ λ t f. f

  refuse-Reads : (o : Option Error) → Reads (refuse o)
  unfolding refuse
  refuse-Reads none = Ensures-pure _ λ t f. f
  refuse-Reads (some e) = Ensures-fail _ λ t f. tt

  refuse_taken-Reads : (name : String) (o : Option CommandEntry) → Reads (refuse_taken name o)
  unfolding refuse_taken
  refuse_taken-Reads name none = Ensures-pure _ λ t f. f
  refuse_taken-Reads name (some e) = Ensures-fail _ λ t f. tt

  refuse_used-Reads : (name : String) → Reads (refuse_used order name)
  unfolding Repository.get_by_name
  refuse_used-Reads name =
      Ensures-bind _ _
        (Ensures-or_wrap _ _ (
          Ensures-bind _ _ (Ensures-statement {Q = λ _. Fixed es} _ _ (λ now t f. f) λ t f. tt)
            with_roles-Reads))
        (refuse_taken-Reads name)

  refuse_blank-Reads : (message name : String) → Reads (refuse_blank message name)
  unfolding refuse_blank
  refuse_blank-Reads message name =
      Ensures-if (is_blank name) (fail (invalid message)) (pure tt) (λ e. Ensures-fail _ λ t f. tt)
        λ e. Ensures-pure _ λ t f. f

  check_name-Reads : (old : String) (name : Option String) → Reads (check_name order old name)
  unfolding check_name
  check_name-Reads old none = Ensures-pure _ λ t f. f
  check_name-Reads old (some name) = Ensures-bind _ _ (refuse_blank-Reads _ name) λ _.
      Ensures-if (name =ₛ old) (pure tt) (refuse_used order name) (λ _. Ensures-pure _ λ t f. f)
        λ _. refuse_used-Reads name

  check_roles-Reads : (roles : Option (List Role)) → Reads (check_roles order roles)
  unfolding check_roles refuse_no_role
  check_roles-Reads none = Ensures-pure _ λ t f. f
  check_roles-Reads (some []) = Ensures-fail _ λ t f. tt
  check_roles-Reads (some (r ∷ rs)) = Ensures-pure _ λ t f. f

  updated :
      (id : String) (input : UpdateCommandInput) (now : ℕ) (e : CommandEntry) (t : Tables)
      → IsRead es id e
      → StoredWith (next_entry input now e) (next_entry input now e).allowed_roles t
      → IsUpdated es id (next_entry input now e) t
  updated id input now e t h s = record {
    old = h.row;
    was_stored = h.is_row;
    version = rw h.version refl;
    created_at = sym h.created_at;
    is_active = h.is_active;
    is_stored =
        subst (λ x. find entry_id x t.entries ≡ some (row_of (next_entry input now e))) key s.0;
    has_roles =
        subst (λ x. roles_of x t.command_roles ≡ (next_entry input now e).allowed_roles) key s.1;
  }
    where
      key : e.id ≡ id
      key = sym h.key ∙ key-find entry_id id es h.row h.is_row

  replaces :
      (id : String) (input : UpdateCommandInput) (now : ℕ) (e : CommandEntry)
      → (h : IsRead es id e) → Replaces es h.row (next_entry input now e)
  replaces id input now e h = (
    subst (λ x. find entry_id x es ≡ some h.row)
        (sym (key-find entry_id id es h.row h.is_row) ∙ h.key) h.is_row,
    (h.key, h.created_at),
  )

  update_found-IsUpdated :
      (id : String) (input : UpdateCommandInput) (e : CommandEntry)
      → IsRead es id e
      → Ensures (Fixed es) Anything (IsUpdated es id) (update_found order input e)
  update_found-IsUpdated id input e h = Ensures-bind _ _ (check_name-Reads e.name input.name) λ _.
      Ensures-bind _ _ (check_roles-Reads input.allowed_roles) λ _.
        Ensures-bind _ _ (refuse-Reads (entry_error (next_entry input 0 e))) λ _.
          Ensures-bind _ _ Ensures-time_now λ now.
            Ensures-bind _ _
              (Ensures-or_wrap _ _
                (update-Stored es (next_entry input now e) h.row _ (replaces id input now e h)))
              λ _. Ensures-pure _ λ t s. updated id input now e t h s

  update_command-Ensures :
      (id : String) (input : UpdateCommandInput)
      → Ensures (Fixed es) Anything (IsUpdated es id) (update_command order id input)
  unfolding update_command
  update_command-Ensures id input =
      Ensures-bind _ _ (Ensures-or_wrap _ _ (get_by_id-IsRead id)) λ found.
        Ensures-bind _ _
          (Ensures-require {Q = λ e t. IsRead es id e × Fixed es t} _ found
            (λ e t h eq. (subst (IsReadOption es id) eq h.0, h.1)) λ t h. tt)
          λ e. Ensures-fact _ _ (update_found-IsUpdated id input e)

module _ (order : Collation) where
  -- An update that is answered has stored, under its ID, the entry that it answers, with its roles in their order and
  -- no others: the entry is of the version after the one which was stored there, of the same date of creation, and active just if
  -- that was.
  pub update_command-IsUpdated :
      (id : String) (input : UpdateCommandInput) (w : World Tables) (e : CommandEntry)
      → (update_command order id input w).0 ≡ ok e
      → IsUpdated w.tables.entries id e (update_command order id input w).1.tables
  update_command-IsUpdated id input w e answer =
      Ensures-answer _ w e (update_command-Ensures order w.tables.entries id input) refl answer
