-- ===== src/Auth/RoleLists.antt =====
-- Lists of roles, and the rows of a table that gives roles to keys.
use kariz.Prelude.{
  ◌≡◌, refl, String, true, not, ◌||◌, List, [], ◌∷◌, ◌++◌, select, arith, eq_iff, ◌=ₛ◌,
  if◌then◌else◌,
}
use kariz.Models.User.{Role}
use kariz.Auth.{has_role}
use kariz.Auth.Users.{roles_of}

pub has_role-append :
    (r : Role) (xs ys : List Role) → has_role r (xs ++ ys) ≡ (has_role r xs || has_role r ys)
unfolding has_role
has_role-append r [] ys = refl
has_role-append r (x ∷ xs) ys = ground (arith, has_role-append r xs ys)

pub has_role-head : (r : Role) (rs : List Role) → has_role r (r ∷ rs) ≡ true
unfolding has_role
has_role-head r rs = ground (arith, eq_iff r r)

pub has_role-tail :
    (r x : Role) (rs : List Role) → has_role r rs ≡ true → has_role r (x ∷ rs) ≡ true
unfolding has_role
has_role-tail r x rs h = ground (arith, h)

pub roles_of-select :
    (j id : String) (rows : List (String × Role))
    → roles_of j (select (λ row. not (row.0 =ₛ id)) rows)
      ≡ (if j =ₛ id then [] else roles_of j rows)
unfolding roles_of
roles_of-select j id [] = ground arith
roles_of-select j id (row ∷ rows) =
    ground (arith, roles_of-select j id rows, eq_iff row.0 id, eq_iff row.0 j, eq_iff j id)

-- A row that is added gives its role last.
pub roles_of-append :
    (j id : String) (role : Role) (rows : List (String × Role))
    → roles_of j (rows ++ (id, role) ∷ [])
      ≡ (if id =ₛ j then roles_of j rows ++ role ∷ [] else roles_of j rows)
unfolding roles_of
roles_of-append j id role [] = ground arith
roles_of-append j id role (row ∷ rows) = ground (arith, roles_of-append j id role rows)
