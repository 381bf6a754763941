-- ===== src/Catalog/Checked.antt =====
-- What internal/catalog/service.go keeps true of the catalog.
use kariz.Auth.RoleLists.{has_role-head}
use kariz.Prelude.{
  ◌≡◌, ◌∙◌, refl, subst, String, true, false, Option, none, some, List, [], ◌∷◌, arith, ◌=ₛ◌,
}
use kariz.Models.Errors.{Error}
use kariz.Models.User.{Role}
use kariz.Models.Command.{CommandEntry, CreateCommandInput, UpdateCommandInput}
use kariz.Database.{World, Exec, pure, fail}
use kariz.Database.Rows.{find, key-find}
use kariz.Database.Triples.{
  Ensures, Ensures-pure, Ensures-fail, Ensures-require, Ensures-statement, Ensures-or_wrap,
  Ensures-bind, Ensures-time_now, Ensures-if, Ensures-known, Ensures-kept, Ensures-fact,
}
use kariz.Auth.{has_role}
use kariz.Auth.Users.{Collation, roles_of}
use kariz.Catalog.{is_blank}
use kariz.Catalog.Repository
use kariz.Catalog.Repository.{Tables, entry_id, named, with_roles, get_roles}
use kariz.Catalog.Service.{
  invalid, entry_error, refuse, refuse_blank, refuse_no_role, refuse_taken, new_entry, given,
  next_entry, refuse_used, store_new, create_command, check_name, check_roles, store_next,
  update_found, update_command, get_command, deactivate_command,
}
use kariz.Catalog.Rows.{
  is_valid, is_some_role, IsChecked, create-IsChecked, update-IsChecked, deactivate-IsChecked,
}

-- A check that lets pass, and what is then known.
abbrev Passes : Type 0 → Exec Tables (Unit {0}) → Type 0
Passes F m = Ensures IsChecked IsChecked (λ _ t. F × IsChecked t) m

refuse-Passes : (o : Option Error) → Passes (o ≡ none) (refuse o)
unfolding refuse
refuse-Passes none = Ensures-pure _ λ t c. (refl, c)
refuse-Passes (some e) = Ensures-fail _ λ t c. c

refuse_blank-Passes :
    (message name : String) → Passes (is_blank name ≡ false) (refuse_blank message name)
unfolding refuse_blank
refuse_blank-Passes message name =
    Ensures-if (is_blank name) (fail (invalid message)) (pure tt) (λ e. Ensures-fail _ λ t c. c)
      λ e. Ensures-pure _ λ t c. (e, c)

refuse_no_role-Passes :
    (roles : List Role) → Passes (is_some_role roles ≡ true) (refuse_no_role roles)
unfolding refuse_no_role
refuse_no_role-Passes [] = Ensures-fail _ λ t c. c
refuse_no_role-Passes (r ∷ rs) = Ensures-pure _ λ t c. (refl, c)

refuse_taken-IsChecked :
    (name : String) (o : Option CommandEntry)
    → Ensures IsChecked IsChecked (λ _. IsChecked) (refuse_taken name o)
unfolding refuse_taken
refuse_taken-IsChecked name none = Ensures-pure _ λ t c. c
refuse_taken-IsChecked name (some e) = Ensures-fail _ λ t c. c

is_valid_of :
    (e : CommandEntry) → is_blank e.name ≡ false → entry_error e ≡ none → is_valid e ≡ true
is_valid_of e h k = rw (h, k) refl

some_role : (r : Role) (rs : List Role) → has_role r rs ≡ true → is_some_role rs ≡ true
unfolding has_role
some_role r [] h = absurd (ground (arith, h))
some_role r (x ∷ rs) h = refl

-- What is known of a command that was read.
abbrev Loaded : CommandEntry → Type 0
Loaded e = (is_blank e.name ≡ false) × (is_some_role e.allowed_roles ≡ true)

abbrev LoadedOption : Option CommandEntry → Type 0
LoadedOption none = Unit
LoadedOption (some e) = Loaded e

named_of : (e : CommandEntry) → is_valid e ≡ true → is_blank e.name ≡ false
named_of e h = ground (arith, h)

module _ (order : Collation) where
  some_role-order :
      (rs : List Role) → is_some_role rs ≡ true → is_some_role (order.by_role rs) ≡ true
  some_role-order [] h = absurd (ground (arith, h))
  some_role-order (r ∷ rs) h =
      some_role r _ (order.has_role-by_role r (r ∷ rs) ∙ has_role-head r rs)

  get_roles-IsChecked :
      (id : String) → Ensures IsChecked IsChecked (λ _. IsChecked) (get_roles order id)
  unfolding get_roles
  get_roles-IsChecked id = Ensures-statement _ _ (λ now t c. c) λ t c. c

  with_roles-IsChecked :
      (o : Option CommandEntry) → Ensures IsChecked IsChecked (λ _. IsChecked) (with_roles order o)
  unfolding with_roles
  with_roles-IsChecked none = Ensures-pure _ λ t c. c
  with_roles-IsChecked (some row) =
      Ensures-bind _ _ (get_roles-IsChecked row.id) λ roles. Ensures-pure _ λ t c. c

  refuse_used-IsChecked :
      (name : String) → Ensures IsChecked IsChecked (λ _. IsChecked) (refuse_used order name)
  unfolding Repository.get_by_name
  refuse_used-IsChecked name =
      Ensures-bind _ _
        (Ensures-or_wrap _ _ (
          Ensures-bind _ _ (Ensures-statement {Q = λ _. IsChecked} _ _ (λ now t c. c) λ t c. c)
            with_roles-IsChecked))
        (refuse_taken-IsChecked name)

  store_new-IsChecked :
      (e : CommandEntry)
      → is_valid e ≡ true
      → is_some_role e.allowed_roles ≡ true
      → Ensures IsChecked IsChecked (λ _. IsChecked) (store_new order e)
  store_new-IsChecked e v r =
      Ensures-bind _ _ (Ensures-or_wrap _ _ (create-IsChecked e e.allowed_roles v r))
        λ _. Ensures-pure _ λ t c. c

  create_command-IsChecked :
      (uuid : String) (input : CreateCommandInput)
      → Ensures IsChecked IsChecked (λ _. IsChecked) (create_command order uuid input)
  unfolding create_command
  create_command-IsChecked uuid input = Ensures-bind _ _ (refuse_blank-Passes _ input.name) λ _.
      Ensures-fact _ _ λ name. Ensures-bind _ _ (refuse_no_role-Passes input.allowed_roles) λ _.
        Ensures-fact _ _ λ roles. Ensures-bind _ _ (refuse_used-IsChecked input.name) λ _.
          Ensures-bind _ _ (refuse-Passes (entry_error (new_entry uuid 0 input))) λ _.
            Ensures-fact _ _ λ valid. Ensures-bind _ _ Ensures-time_now λ now.
              store_new-IsChecked (new_entry uuid now input)
                (is_valid_of (new_entry uuid now input) name valid) roles

  roles_of_row :
      (id : String) (row : CommandEntry) (t : Tables)
      → find entry_id id t.entries ≡ some row
      → IsChecked t
      → is_some_role (roles_of row.id t.command_roles) ≡ true
  roles_of_row id row t h c = rw (key-find entry_id id t.entries row h) (c.roled id row h)

  with_roles-Loaded :
      (id : String) (o : Option CommandEntry)
      → Ensures
          (λ t. (find entry_id id t.entries ≡ o) × IsChecked t)
          IsChecked
          (λ e t. LoadedOption e × IsChecked t)
          (with_roles order o)
  unfolding with_roles get_roles
  with_roles-Loaded id none = Ensures-pure _ λ t h. (tt, h.1)
  with_roles-Loaded id (some row) =
      Ensures-bind _ _
        (Ensures-statement
          {Q = λ roles t. ((is_blank row.name ≡ false) × (is_some_role roles ≡ true)) × IsChecked t}
          _ _
          (λ now t h. (
            (
              named_of row (h.1.valid id row h.0),
              some_role-order (roles_of row.id t.command_roles) (roles_of_row id row t h.0 h.1),
            ),
            h.1,
          ))
          λ t h. h.1)
        λ roles. Ensures-pure _ λ t h. h

  get_by_id-Loaded :
      (id : String)
      → Ensures IsChecked IsChecked
          (λ e t. LoadedOption e × IsChecked t)
          (Repository.get_by_id order id)
  unfolding Repository.get_by_id
  get_by_id-Loaded id =
      Ensures-bind _ _
        (Ensures-statement {Q = λ o t. (find entry_id id t.entries ≡ o) × IsChecked t} _ _
          (λ now t c. (refl, c)) λ t c. c)
        (with_roles-Loaded id)

  check_name-Passes :
      (old : String) (name : Option String)
      → is_blank old ≡ false
      → Passes (is_blank (given name old) ≡ false) (check_name order old name)
  unfolding check_name
  check_name-Passes old none h = Ensures-pure _ λ t c. (h, c)
  check_name-Passes old (some name) h = Ensures-bind _ _ (refuse_blank-Passes _ name) λ _.
      Ensures-fact _ _ λ e.
        Ensures-if (name =ₛ old) (pure tt) (refuse_used order name)
          (λ _. Ensures-pure _ λ t c. (e, c)) λ _. Ensures-known _ e (refuse_used-IsChecked name)

  check_roles-Passes :
      (roles : Option (List Role)) (old : List Role)
      → is_some_role old ≡ true
      → Passes (is_some_role (given roles old) ≡ true) (check_roles order roles)
  unfolding check_roles
  check_roles-Passes none old h = Ensures-pure _ λ t c. (h, c)
  check_roles-Passes (some roles) old h = refuse_no_role-Passes roles

  store_next-IsChecked :
      (e : CommandEntry)
      → is_valid e ≡ true
      → is_some_role e.allowed_roles ≡ true
      → Ensures IsChecked IsChecked (λ _. IsChecked) (store_next order e)
  store_next-IsChecked e v r =
      Ensures-bind _ _ (Ensures-or_wrap _ _ (update-IsChecked e e.allowed_roles v r))
        λ _. Ensures-pure _ λ t c. c

  update_found-IsChecked :
      (input : UpdateCommandInput) (e : CommandEntry)
      → Loaded e
      → Ensures IsChecked IsChecked (λ _. IsChecked) (update_found order input e)
  update_found-IsChecked input e loaded =
      Ensures-bind _ _ (check_name-Passes e.name input.name loaded.0) λ _. Ensures-fact _ _ λ name.
        Ensures-bind _ _ (check_roles-Passes input.allowed_roles e.allowed_roles loaded.1) λ _.
          Ensures-fact _ _ λ roles.
            Ensures-bind _ _ (refuse-Passes (entry_error (next_entry input 0 e))) λ _.
              Ensures-fact _ _ λ valid. Ensures-bind _ _ Ensures-time_now λ now.
                store_next-IsChecked (next_entry input now e)
                  (is_valid_of (next_entry input now e) name valid) roles

  update_command-IsChecked :
      (id : String) (input : UpdateCommandInput)
      → Ensures IsChecked IsChecked (λ _. IsChecked) (update_command order id input)
  unfolding update_command
  update_command-IsChecked id input =
      Ensures-bind _ _ (Ensures-or_wrap _ _ (get_by_id-Loaded id)) λ found.
        Ensures-bind _ _
          (Ensures-require {Q = λ e t. Loaded e × IsChecked t} _ found
            (λ e t h eq. (subst LoadedOption eq h.0, h.1)) λ t h. h.1)
          λ e. Ensures-fact _ _ (update_found-IsChecked input e)

  deactivate_command-IsChecked :
      (id : String) → Ensures IsChecked IsChecked (λ _. IsChecked) (deactivate_command id)
  unfolding deactivate_command
  deactivate_command-IsChecked id = Ensures-or_wrap _ _ (deactivate-IsChecked id)

  get_command-IsChecked :
      (id : String) → Ensures IsChecked IsChecked (λ _. IsChecked) (get_command order id)
  unfolding get_command
  get_command-IsChecked id =
      Ensures-bind _ _ (Ensures-or_wrap _ _ (get_by_id-Loaded id))
        λ found. Ensures-require _ found (λ e t h eq. h.1) λ t h. h.1

-- The calls of the catalog's service. A creation comes with the new UUID.
pub data CatalogCall : Type 0 where
  creates : String → CreateCommandInput → CatalogCall
  updates : String → UpdateCommandInput → CatalogCall
  deactivates gets : String → CatalogCall

module _ (order : Collation) where
  abbrev pub call : CatalogCall → World Tables → World Tables
  call (creates uuid input) w = (create_command order uuid input w).1
  call (updates id input) w = (update_command order id input w).1
  call (deactivates id) w = (deactivate_command id w).1
  call (gets id) w = (get_command order id w).1

  abbrev pub run_calls : List CatalogCall → World Tables → World Tables
  run_calls [] w = w
  run_calls (c ∷ cs) w = run_calls cs (call c w)

  call-IsChecked :
      (c : CatalogCall) (w : World Tables) → IsChecked w.tables → IsChecked (call c w).tables
  call-IsChecked (creates uuid input) w c =
      Ensures-kept _ (create_command-IsChecked order uuid input) w c
  call-IsChecked (updates id input) w c =
      Ensures-kept _ (update_command-IsChecked order id input) w c
  call-IsChecked (deactivates id) w c = Ensures-kept _ (deactivate_command-IsChecked order id) w c
  call-IsChecked (gets id) w c = Ensures-kept _ (get_command-IsChecked order id) w c

  -- If each stored command has a name that is not blank, fields that pass `validateCommandFields`, and a role that may run
  -- it, then so it is after any sequence of calls to the catalog's service, whatever they ask and
  -- whichever statements fail.
  pub run_calls-IsChecked :
      (cs : List CatalogCall) (w : World Tables)
      → IsChecked w.tables
      → IsChecked (run_calls cs w).tables
  run_calls-IsChecked [] w c = c
  run_calls-IsChecked (x ∷ cs) w c = run_calls-IsChecked cs (call x w) (call-IsChecked x w c)
