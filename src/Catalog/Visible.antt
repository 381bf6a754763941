-- ===== src/Catalog/Visible.antt =====
-- Whom the list of commands of internal/catalog shows what.
use kariz.Prelude.{◌≡◌, String, Bool, true, not, ◌&&◌, List}
use kariz.Models.User.{Role}
use kariz.Models.Command.{CommandEntry}
use kariz.Auth.Users.{roles_of}
use kariz.Auth.Middleware.{has_role_intersection}
use kariz.Catalog.Repository.{Tables}

-- An active command that one of the roles may run.
abbrev pub IsVisible : List Role → CommandEntry → Type 0
IsVisible roles e = (e.is_active ≡ true) × (has_role_intersection e.allowed_roles roles ≡ true)

-- The row of a command that is not to be shown.
abbrev is_hidden : List Role → List (String × Role) → CommandEntry → Bool
is_hidden roles rows e = not (e.is_active && has_role_intersection (roles_of e.id rows) roles)

Fixed : List (String × Role) → Tables → Type 0
Fixed rows t = t.command_roles ≡ rows
