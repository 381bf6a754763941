-- ===== src/Catalog/Rows.antt =====
-- What internal/catalog keeps of each stored command, and the statements of internal/catalog/repository.go beside it.
use kariz.Auth.RoleLists.{roles_of-select}
use kariz.Prelude.{
  ℕ, ◌≡◌, refl, sym, subst, String, Bool, true, false, not, ◌&&◌, ◌||◌, Option, none, some, List,
  [], ◌∷◌, ◌++◌, arith, eq_iff, eq_sym, ◌∙◌, ◌=ₛ◌, if◌then◌else◌,
}
use kariz.Models.User.{Role}
use kariz.Models.Command.{CommandEntry}
use kariz.Database.Rows.{find, modify, map_row, absent, find-modify, find-append}
use kariz.Database.Triples.{
  Post, Ensures, Ensures-pure, Ensures-statement, Ensures-bind, Ensures-transaction,
  Ensures-time_now, Anything,
}
use kariz.Auth.Users.{roles_of}
use kariz.Catalog.{is_blank}
use kariz.Catalog.Repository.{
  Tables, entry_id, row_of, add_entry, add_role, insert_roles, create, updated_row, change_entry,
  without_roles, update, inactive_row, drop_entry, deactivate,
}
use kariz.Catalog.Service.{entry_error}

-- A name that is not blank, and fields that pass `validateCommandFields`.
abbrev pub is_valid : CommandEntry → Bool
is_valid e = not (is_blank e.name) && absent (entry_error e)

abbrev pub is_some_role : List Role → Bool
is_some_role [] = false
is_some_role (r ∷ rs) = true

-- Each stored command is valid, and some role may run it.
pub record IsChecked (t : Tables) : Type 0 where
  pub valid :
      (id : String) (e : CommandEntry) → find entry_id id t.entries ≡ some e → is_valid e ≡ true
  pub roled :
      (id : String) (e : CommandEntry)
      → find entry_id id t.entries ≡ some e
      → is_some_role (roles_of id t.command_roles) ≡ true

-- The same, once the roles are given to the command `id`.
record Pending (id : String) (roles : List Role) (t : Tables) : Type 0 where
  pub valid :
      (j : String) (e : CommandEntry) → find entry_id j t.entries ≡ some e → is_valid e ≡ true
  pub roled :
      (j : String) (e : CommandEntry)
      → find entry_id j t.entries ≡ some e
      → (is_some_role (roles_of j t.command_roles) || (j =ₛ id) && is_some_role roles) ≡ true

roles_of-append :
    (j id : String) (role : Role) (rows : List (String × Role))
    → is_some_role (roles_of j (rows ++ (id, role) ∷ []))
      ≡ (is_some_role (roles_of j rows) || (id =ₛ j))
unfolding roles_of
roles_of-append j id role [] = ground arith
roles_of-append j id role (row ∷ rows) = ground (arith, roles_of-append j id role rows)

Pending-IsChecked : (id : String) (t : Tables) → Pending id [] t → IsChecked t
Pending-IsChecked id t p = record {
  valid = p.valid;
  roled = λ j e h. ground (arith, p.roled j e h);
}

IsChecked-Pending :
    (id : String) (roles : List Role) (t : Tables) → IsChecked t → Pending id roles t
IsChecked-Pending id roles t c = record {
  valid = c.valid;
  roled = λ j e h. rw (c.roled j e h) refl;
}

add_role-Pending :
    (id : String) (role : Role) (roles : List Role) (owner : Option CommandEntry) (held : Bool)
    (t : Tables)
    → Pending id (role ∷ roles) t
    → let r = add_role id role owner held t in Post Anything (λ _. Pending id roles) r.0 r.1
unfolding add_role
add_role-Pending id role roles none held t p = tt
add_role-Pending id role roles (some e) true t p = tt
add_role-Pending id role roles (some e) false t p = record {
  valid = p.valid;
  roled = λ j e h.
      ground
        (arith, p.roled j e h, roles_of-append j id role t.command_roles, eq_iff j id, eq_iff id j);
}

insert_roles-Pending :
    (id : String) (roles : List Role)
    → Ensures (Pending id roles) Anything (λ _. IsChecked) (insert_roles id roles)
unfolding insert_roles
insert_roles-Pending id [] = Ensures-pure _ (Pending-IsChecked id)
insert_roles-Pending id (role ∷ roles) =
    Ensures-bind _ _
      (Ensures-statement {Q = λ _. Pending id roles} _ _
        (λ now t. add_role-Pending id role roles _ _ t) λ t p. tt)
      λ _. insert_roles-Pending id roles

some_path : (x y : CommandEntry) → some x ≡ some y → x ≡ y
some_path x y h = cc

-- One of two rows is the one found.
either_row :
    (P : CommandEntry → Type 0) (b : Bool) (x : CommandEntry) (o : Option CommandEntry)
    (e : CommandEntry)
    → (if b then some x else o) ≡ some e
    → P x
    → (o ≡ some e → P e)
    → P e
either_row P true x o e h px po = subst P (some_path x e h) px
either_row P false x o e h px po = po h

with_true : (b c : Bool) → (b || c) ≡ true → (b || c && true) ≡ true
with_true true c h = refl
with_true false true h = refl
with_true false false h = h

appended_roled :
    (b c : Bool) (x : CommandEntry) (o : Option CommandEntry) (e : CommandEntry)
    → (if c then some x else o) ≡ some e
    → (o ≡ some e → b ≡ true)
    → (b || c) ≡ true
appended_roled true c x o e h ho = refl
appended_roled false true x o e h ho = refl
appended_roled false false x o e h ho = ho h

add_entry-Pending :
    (e : CommandEntry) (roles : List Role) (clash same : Option CommandEntry) (t : Tables)
    → find entry_id e.id t.entries ≡ clash
    → is_valid e ≡ true
    → is_some_role roles ≡ true
    → IsChecked t
    → let r = add_entry e clash same t in Post Anything (λ _. Pending e.id roles) r.0 r.1
unfolding add_entry
add_entry-Pending e roles none none t h v some_role c = record {
  valid = λ j x found.
      either_row (λ y. is_valid y ≡ true) (e.id =ₛ j) (row_of e) (find entry_id j t.entries) x
        (sym (find-append entry_id j t.entries (row_of e) h) ∙ found) v (c.valid j x);
  roled = λ j x found.
      rw (some_role, eq_sym j e.id)
        (with_true (is_some_role (roles_of j t.command_roles)) (e.id =ₛ j) (
          appended_roled (is_some_role (roles_of j t.command_roles)) (e.id =ₛ j) (row_of e)
            (find entry_id j t.entries) x
            (sym (find-append entry_id j t.entries (row_of e) h) ∙ found) (c.roled j x)));
}
add_entry-Pending e roles none (some same) t h v some_role c = tt
add_entry-Pending e roles (some clash) same t h v some_role c = tt

pub create-IsChecked :
    (e : CommandEntry) (roles : List Role)
    → is_valid e ≡ true
    → is_some_role roles ≡ true
    → Ensures IsChecked IsChecked (λ _. IsChecked) (create e roles)
unfolding create
create-IsChecked e roles v some_role =
    Ensures-transaction _
      (Ensures-bind _ _
        (Ensures-statement {Q = λ _. Pending e.id roles} _ _
          (λ now t. add_entry-Pending e roles _ _ t refl v some_role) λ t c. tt)
        λ _. insert_roles-Pending e.id roles)
      λ t c. c

-- A changed row, and a row that is there under another key.
modified_valid :
    (b : Bool) (f : CommandEntry → CommandEntry) (o : Option CommandEntry) (e : CommandEntry)
    → ((r : CommandEntry) → is_valid r ≡ true → is_valid (f r) ≡ true)
    → ((r : CommandEntry) → o ≡ some r → is_valid r ≡ true)
    → (if b then map_row f o else o) ≡ some e
    → is_valid e ≡ true
modified_valid true f none e fv ov h = absurd (ground (arith, h))
modified_valid true f (some r) e fv ov h =
    subst (λ x. is_valid x ≡ true) (some_path (f r) e h) (fv r (ov r refl))
modified_valid false f o e fv ov h = ov e h

modified_there :
    (b : Bool) (f : CommandEntry → CommandEntry) (o : Option CommandEntry) (e : CommandEntry)
    (has : Bool)
    → ((r : CommandEntry) → o ≡ some r → has ≡ true)
    → (if b then map_row f o else o) ≡ some e
    → has ≡ true
modified_there true f none e has h e' = absurd (ground (arith, e'))
modified_there true f (some r) e has h e' = h r refl
modified_there false f o e has h e' = h e e'

modify-IsChecked :
    (id : String) (f : CommandEntry → CommandEntry) (t : Tables)
    → ((r : CommandEntry) → (f r).id ≡ r.id)
    → ((r : CommandEntry) → is_valid r ≡ true → is_valid (f r) ≡ true)
    → IsChecked t
    → IsChecked (record t { entries = modify entry_id id f t.entries })
modify-IsChecked id f t key fv c = record {
  valid = λ j e found.
      modified_valid (id =ₛ j) f (find entry_id j t.entries) e fv (c.valid j)
        (sym (find-modify entry_id j id f t.entries key) ∙ found);
  roled = λ j e found.
      modified_there (id =ₛ j) f (find entry_id j t.entries) e _ (c.roled j)
        (sym (find-modify entry_id j id f t.entries key) ∙ found);
}

change_entry-IsChecked :
    (e : CommandEntry) (row : Option CommandEntry) (taken : Bool) (t : Tables)
    → is_valid e ≡ true
    → IsChecked t
    → let r = change_entry e row taken t in Post Anything (λ _. IsChecked) r.0 r.1
unfolding change_entry
change_entry-IsChecked e none taken t v c = tt
change_entry-IsChecked e (some row) true t v c = tt
change_entry-IsChecked e (some row) false t v c =
    modify-IsChecked e.id (updated_row e) t (λ r. refl) (λ r _. v) c

without_roles-Pending :
    (id : String) (roles : List Role) (t : Tables)
    → is_some_role roles ≡ true
    → IsChecked t
    → Pending id roles (without_roles id t)
without_roles-Pending id roles t some_role c = record {
  valid = c.valid;
  roled = λ j e h. ground (arith, roles_of-select j id t.command_roles, c.roled j e h, some_role);
}

pub update-IsChecked :
    (e : CommandEntry) (roles : List Role)
    → is_valid e ≡ true
    → is_some_role roles ≡ true
    → Ensures IsChecked IsChecked (λ _. IsChecked) (update e roles)
unfolding update
update-IsChecked e roles v some_role =
    Ensures-transaction _
      (Ensures-bind _ _
        (Ensures-statement {Q = λ _. IsChecked} _ _ (λ now t. change_entry-IsChecked e _ _ t v)
          λ t c. tt)
        λ _.
          Ensures-bind _ _
            (Ensures-statement {Q = λ _. Pending e.id roles} _ _
              (λ now t. without_roles-Pending e.id roles t some_role) λ t c. tt)
            λ _. insert_roles-Pending e.id roles)
      λ t c. c

drop_entry-IsChecked :
    (id : String) (now : ℕ) (row : Option CommandEntry) (t : Tables)
    → IsChecked t
    → let r = drop_entry id now row t in Post IsChecked (λ _. IsChecked) r.0 r.1
unfolding drop_entry
drop_entry-IsChecked id now none t c = c
drop_entry-IsChecked id now (some row) t c =
    modify-IsChecked id (inactive_row now) t (λ r. refl) (λ r v. v) c

pub deactivate-IsChecked :
    (id : String) → Ensures IsChecked IsChecked (λ _. IsChecked) (deactivate id)
unfolding deactivate
deactivate-IsChecked id =
    Ensures-bind _ _ Ensures-time_now
      λ at. Ensures-statement _ _ (λ now t. drop_entry-IsChecked id at _ t) λ t c. c
