-- ===== src/Admin/Roles.antt =====
-- The roles that a request names (internal/api/admin_handlers.go, `parseAndValidateRoles`).
use kariz.Auth.RoleLists.{has_role-append}
use kariz.Prelude.{eq_path}
use kariz.Prelude.{
  ◌≡◌, refl, subst, String, Bool, true, false, not, ◌&&◌, ◌||◌, List, [], ◌∷◌, ◌++◌, arith, eq_iff,
  ◌=ₛ◌, ◌⊎◌, inl, inr, Bool-cases, if◌then◌else◌,
}
use kariz.Models.Errors.{Error, outside, lit}
use kariz.Models.User.{Role, role_admin, role_qa, role_data, role_operations}
use kariz.Database.{Result, ok, err}
use kariz.Auth.{has_role}

abbrev pub valid_roles : List Role
valid_roles = role_admin ∷ role_qa ∷ role_data ∷ role_operations ∷ []

abbrev pub err_invalid_role : String → Error
err_invalid_role r = outside (lit "invalid role: " ∷ lit r ∷ [])

-- The loop, with the roles so far; `seen` has the same roles.
unfoldable pub parse_from : List Role → List String → Result (List Role)
parse_from roles [] = ok roles
parse_from roles (r ∷ rs) =
    let skipped = parse_from roles rs in
    let added = parse_from (roles ++ r ∷ []) rs in
    if not (has_role r valid_roles)
    then err (err_invalid_role r)
    else if has_role r roles
    then skipped
    else added

unfoldable pub parse_and_validate_roles : List String → Result (List Role)
parse_and_validate_roles names = parse_from [] names

-- No role twice.
abbrev pub once : List Role → Bool
once [] = true
once (r ∷ rs) = not (has_role r rs) && once rs

abbrev pub is_valid : Role → Bool
is_valid r = has_role r valid_roles

-- The roles of the list, each once, beside those known before.
pub record IsRoleSet (known : List Role) (names rs : List String) : Type 0 where
  pub unique : once rs ≡ true
  pub members : (r : Role) → has_role r rs ≡ (has_role r known || has_role r names)
  pub valid : (r : Role) → has_role r names ≡ true → is_valid r ≡ true

-- The name for which the request is refused.
pub record IsRefused (names : List String) (answer : Result (List Role)) : Type 0 where
  pub name : String
  pub is_answer : answer ≡ err (err_invalid_role name)
  pub named : has_role name names ≡ true
  pub invalid : is_valid name ≡ false

-- What the loop answers.
abbrev pub Parsed : List Role → List String → Result (List Role) → Type 0
Parsed known names answer =
    ((rs : List Role) × ((answer ≡ ok rs) × IsRoleSet known names rs)) ⊎ IsRefused names answer

once-append :
    (rs : List Role) (r : Role)
    → once rs ≡ true
    → has_role r rs ≡ false
    → once (rs ++ r ∷ []) ≡ true
unfolding has_role
once-append [] r h e = refl
once-append (x ∷ rs) r h e =
    ground (arith, once-append rs r, has_role-append x rs (r ∷ []), eq_iff r x, eq_iff x r)

valid_cons :
    (name r : Role) (names : List String)
    → is_valid name ≡ true
    → ((r : Role) → has_role r names ≡ true → is_valid r ≡ true)
    → has_role r (name ∷ names) ≡ true
    → is_valid r ≡ true
unfolding has_role
valid_cons name r names e valid h = ground (arith, eq_iff name r, valid r)

refuse-later :
    (known : List Role) (name : String) (names : List String) (answer : Result (List Role))
    → IsRefused names answer
    → IsRefused (name ∷ names) answer
unfolding has_role
refuse-later known name names answer f = record {
  name = f.name;
  is_answer = f.is_answer;
  named = ground (arith, f.named);
  invalid = f.invalid;
}

skipped_member :
    (known : List Role) (name : String) (names rs : List String) (r : Role)
    → has_role name known ≡ true
    → has_role r rs ≡ (has_role r known || has_role r names)
    → has_role r rs ≡ (has_role r known || has_role r (name ∷ names))
unfolding has_role
skipped_member known name names rs r k h = elim (Bool-cases (name =ₛ r)) [
  | inl e ↦
      let known_r = subst (λ x. has_role x known ≡ true) (eq_path name r e) k in
      ground (arith, h, known_r)
  | inr e ↦ ground (arith, h, e)
]

added_member :
    (known : List Role) (name : String) (names rs : List String) (r : Role)
    → has_role r rs ≡ (has_role r (known ++ name ∷ []) || has_role r names)
    → has_role r rs ≡ (has_role r known || has_role r (name ∷ names))
unfolding has_role
added_member known name names rs r h = ground (arith, h, has_role-append r known (name ∷ []))

skip-Parsed :
    (known : List Role) (name : String) (names : List String) (answer : Result (List Role))
    → is_valid name ≡ true
    → has_role name known ≡ true
    → Parsed known names answer
    → Parsed known (name ∷ names) answer
skip-Parsed known name names answer v k (inl s) = inl (
  s.0,
  (
    s.1.0,
    record {
      unique = s.1.1.unique;
      members = λ r. skipped_member known name names s.0 r k (s.1.1.members r);
      valid = λ r. valid_cons name r names v s.1.1.valid;
    },
  ),
)
skip-Parsed known name names answer v k (inr f) = inr (refuse-later known name names answer f)

add-Parsed :
    (known : List Role) (name : String) (names : List String) (answer : Result (List Role))
    → is_valid name ≡ true
    → Parsed (known ++ name ∷ []) names answer
    → Parsed known (name ∷ names) answer
add-Parsed known name names answer v (inl s) = inl (
  s.0,
  (
    s.1.0,
    record {
      unique = s.1.1.unique;
      members = λ r. added_member known name names s.0 r (s.1.1.members r);
      valid = λ r. valid_cons name r names v s.1.1.valid;
    },
  ),
)
add-Parsed known name names answer v (inr f) = inr (refuse-later known name names answer f)

parse_from-Parsed :
    (known : List Role) (names : List String)
    → once known ≡ true
    → Parsed known names (parse_from known names)
unfolding parse_from has_role
parse_from-Parsed known [] h = inl (
  known,
  (refl, record { unique = h; members = λ r. ground arith; valid = λ r e. ground (arith, e) }),
)
parse_from-Parsed known (name ∷ names) h = elim (Bool-cases (is_valid name)) [
  | inl v ↦ elim (Bool-cases (has_role name known)) [
    | inl k ↦ rw (v, k) (skip-Parsed known name names _ v k (parse_from-Parsed known names h))
    | inr k ↦
        rw (v, k)
          (add-Parsed known name names _ v
            (parse_from-Parsed (known ++ name ∷ []) names (once-append known name h k)))
  ]
  | inr v ↦ rw v (
      inr (record {
        name = name;
        is_answer = refl;
        named = ground (arith, eq_iff name name);
        invalid = v;
      }))
]

-- The roles of a request are refused for a name among them that is no role; or all are roles, and the answer has
-- the same ones, each once.
pub parse_and_validate_roles-Parsed :
    (names : List String) → Parsed [] names (parse_and_validate_roles names)
unfolding parse_and_validate_roles
parse_and_validate_roles-Parsed names = parse_from-Parsed [] names refl
