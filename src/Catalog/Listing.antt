-- ===== src/Catalog/Listing.antt =====
-- The list of commands (`List` of internal/catalog/repository.go, and its uses in internal/catalog/service.go).
use kariz.Prelude.{
  ℕ, zero, suc, ◌-◌, ◌*◌, ◌≡◌, String, Bool, true, false, ◌&&◌, ◌||◌, Option, none, some, List, [],
  ◌∷◌, drop, length, select, ℤ, pos, negsuc, ◌=ₛ◌, ◌+ₛ◌, if◌then◌else◌,
}
use kariz.Models.User.{Role}
use kariz.Models.Command.{CommandEntry, CommandFilter}
use kariz.Database.{ok, Exec, ◌>>=◌, pure, ◌or_wrap◌, statement}
use kariz.Auth.Users.{Collation, roles_of}
use kariz.Auth.Middleware.{has_role_intersection}
use kariz.Catalog.Repository.{Tables, get_roles}

-- `ORDER BY ce.name ASC` and `ILIKE` of the database, the pattern second. An order keeps the elements: as many pass any
-- test as before.
pub record TextRules : Type 0 where
  pub by_name : List CommandEntry → List CommandEntry
  pub ilike : String → String → Bool
  pub select-by_name :
      (p : CommandEntry → Bool) (es : List CommandEntry)
      → length (select p (by_name es)) ≡ length (select p es)

pub record PaginatedResult : Type 0 where
  pub items : List CommandEntry
  pub total : ℕ
  pub page : ℕ
  pub page_size : ℕ

-- `if page < 1 { page = 1 }`.
unfoldable pub at_least_one : ℕ → ℤ → ℕ
at_least_one default (negsuc n) = default
at_least_one default (pos zero) = default
at_least_one default (pos (suc n)) = suc n

unfoldable pub take {ℓ} : {A : Type ℓ} → ℕ → List A → List A
take zero xs = []
take (suc n) [] = []
take (suc n) (x ∷ xs) = x ∷ take n xs

-- A list of roles that is empty is no condition.
unfoldable pub has_roles : List Role → List Role → Bool
has_roles [] roles = true
has_roles (r ∷ rs) roles = has_role_intersection roles (r ∷ rs)

unfoldable pub is_status : Option Bool → Bool → Bool
is_status none active = true
is_status (some true) active = active
is_status (some false) active = if active then false else true

abbrev pub active_only : CommandFilter → CommandFilter
active_only filter = record filter { is_active = some true }

abbrev pub searching : String → List Role → CommandFilter
searching query user_roles = record {
  category = "";
  is_active = some true;
  roles = user_roles;
  page = pos 1;
  page_size = pos 100;
  search = query;
}

module _ (rules : TextRules) where
  unfoldable pub is_found : String → CommandEntry → Bool
  is_found search e =
      let pattern = "%" +ₛ search +ₛ "%" in
      search =ₛ "" || (rules.ilike e.name pattern || rules.ilike e.description pattern)

  abbrev pub is_listed : CommandFilter → List (String × Role) → CommandEntry → Bool
  is_listed filter rows e =
      has_roles filter.roles (roles_of e.id rows)
      && (is_status filter.is_active e.is_active
          && ((filter.category =ₛ "" || e.category =ₛ filter.category) && is_found filter.search e))

  module _ (order : Collation) where
    unfoldable pub load_each : List CommandEntry → Exec Tables (List CommandEntry)
    load_each [] = pure []
    load_each (row ∷ rows) = do
      roles ← get_roles order row.id
      rest ← load_each rows
      pure (record row { allowed_roles = roles } ∷ rest)

    abbrev pub listed_rows : CommandFilter → ℕ → ℕ → Exec Tables (List CommandEntry)
    listed_rows filter page page_size = statement "list commands" (λ now t. (
      ok (
          take page_size (
            drop ((page - 1) * page_size)
              (rules.by_name (select (is_listed filter t.command_roles) t.entries)))),
      t,
    ))

    abbrev pub counted_rows : CommandFilter → Exec Tables ℕ
    counted_rows filter =
        statement "count commands"
          (λ now t. (ok (length (select (is_listed filter t.command_roles) t.entries)), t))

    abbrev pub list_page : CommandFilter → ℕ → ℕ → Exec Tables PaginatedResult
    list_page filter page page_size = do
      total ← counted_rows filter
      rows ← listed_rows filter page page_size
      items ← load_each rows
      pure (record { items = items; total = total; page = page; page_size = page_size })

    unfoldable pub list : CommandFilter → Exec Tables PaginatedResult
    list filter = list_page filter (at_least_one 1 filter.page) (at_least_one 20 filter.page_size)

    unfoldable pub list_commands : CommandFilter → Exec Tables PaginatedResult
    list_commands filter = list (active_only filter) or_wrap "list commands"

    unfoldable pub search_commands : String → List Role → Exec Tables (List CommandEntry)
    search_commands query user_roles = do
      result ← list (searching query user_roles) or_wrap "search commands"
      pure result.items
