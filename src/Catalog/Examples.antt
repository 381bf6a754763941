-- ===== src/Catalog/Examples.antt =====
-- Tests and instances for internal/catalog.
use kariz.Prelude.{◌≡◌, ◌↔◌, refl, String, true, false, none, some, List, [], ◌∷◌, arith, pos}
use kariz.Models.Command.{
  exec, other, CommandEntry, CreateCommandInput, UpdateCommandInput, CommandFilter,
}
use kariz.Database.{ok, World, ◌>>=◌, transaction, fault_of, later_of, elapsed_of}
use kariz.Database.Rows.{find, modify}
use kariz.Auth.{has_role}
use kariz.Auth.Users.{Collation, roles_of}
use kariz.Catalog.Repository
use kariz.Catalog.Repository.{
  Tables, named, add_entry, add_role, insert_roles, with_roles, change_entry,
}
use kariz.Catalog.Service.{
  mode_or_create, options_for, refuse, refuse_blank, refuse_no_role, refuse_taken, new_entry,
  next_entry, create_command, check_name, check_roles, update_command,
}
use kariz.Catalog.Rows.{IsChecked}
use kariz.Catalog.Checked.{
  CatalogCall, creates, updates, deactivates, run_calls, run_calls-IsChecked,
}
use kariz.Catalog.Listing
use kariz.Catalog.Listing.{TextRules, PaginatedResult}
use kariz.Catalog.Versions.{IsUpdated, update_command-IsUpdated}
use kariz.Catalog.{validate_command_fields}
use kariz.Catalog.Fields.{HasFields, IsTimeout, validate_command_fields-HasFields}

validate_command_fields-HasFields_example :
    (validate_command_fields exec "ls" "" "web" none (pos 60) ≡ none)
    ↔ (HasFields exec "ls" "" "web" none × IsTimeout (pos 60))
validate_command_fields-HasFields_example =
    validate_command_fields-HasFields exec "ls" "" "web" none (pos 60)

abbrev order : Collation
order = record { by_role = (λ rs. rs); by_username = (λ us. us); has_role-by_role = (λ r rs. refl) }

abbrev listing : CreateCommandInput
listing = record {
  name = "List";
  description = "";
  category = "files";
  docker_image = "alpine";
  command_string = "ls";
  parameter_schema = [];
  allowed_roles = "qa" ∷ [];
  resource_limits = record { cpu_shares = none; memory_mb = none; cpu_count = none };
  volumes = [];
  timeout_seconds = pos 60;
  allow_concurrent = true;
  execution_mode = other "";
  target_container = "";
  log_options = none;
  artifacts = [];
  artifact_destination = none;
}

abbrev renaming : String → UpdateCommandInput
renaming name = record {
  name = some name;
  description = none;
  category = none;
  docker_image = none;
  command_string = none;
  parameter_schema = none;
  allowed_roles = none;
  resource_limits = none;
  volumes = none;
  timeout_seconds = none;
  allow_concurrent = none;
  execution_mode = none;
  target_container = none;
  log_options = none;
  artifacts = none;
  artifact_destination = none;
}

abbrev world : World Tables
world = record { tables = record { entries = []; command_roles = [] }; clock = 10; latencies = [] }

world-IsChecked : IsChecked world.tables
unfolding find
world-IsChecked = record {
  valid = λ id e h. absurd (ground (arith, h));
  roled = λ id e h. absurd (ground (arith, h));
}

-- A command, an update that is refused, one that is not, and its end.
abbrev calls : List CatalogCall
calls =
    creates "c1" listing
    ∷ updates "c1" (renaming " ")
    ∷ updates "c1" (renaming "Show")
    ∷ deactivates "c1"
    ∷ []

run_calls-IsChecked_example : IsChecked (run_calls order calls world).tables
run_calls-IsChecked_example = run_calls-IsChecked order calls world world-IsChecked

abbrev created : World Tables
created = (create_command order "c1" listing world).1

create_run : (create_command order "c1" listing world).0 ≡ ok (new_entry "c1" 10 listing)
unfolding create_command refuse refuse_blank refuse_no_role refuse_taken mode_or_create options_for
    validate_command_fields Repository.get_by_name Repository.create named with_roles add_entry
    add_role insert_roles transaction ◌>>=◌ find has_role roles_of fault_of later_of elapsed_of
create_run = refl

abbrev renamed : CommandEntry
renamed = next_entry (renaming "Show") 10 (new_entry "c1" 10 listing)

update_run : (update_command order "c1" (renaming "Show") created).0 ≡ ok renamed
unfolding update_command check_name check_roles create_command refuse refuse_blank refuse_no_role
    refuse_taken mode_or_create options_for validate_command_fields Repository.get_by_id
    Repository.get_by_name Repository.create Repository.update named with_roles Repository.get_roles
    add_entry add_role insert_roles change_entry transaction ◌>>=◌ find modify has_role roles_of
    fault_of later_of elapsed_of
update_run = refl

update_command-IsUpdated_example :
    IsUpdated created.tables.entries "c1" renamed
      (update_command order "c1" (renaming "Show") created).1.tables
update_command-IsUpdated_example =
    update_command-IsUpdated order "c1" (renaming "Show") created renamed update_run

abbrev rules : TextRules
rules = record { by_name = (λ es. es); ilike = (λ s p. false); select-by_name = (λ p es. refl) }

abbrev first_page : CommandFilter
first_page = record {
  category = "files";
  is_active = none;
  roles = "data" ∷ "qa" ∷ [];
  page = pos 0;
  page_size = pos 5;
  search = "";
}

abbrev listed : PaginatedResult
listed = record { items = new_entry "c1" 10 listing ∷ []; total = 1; page = 1; page_size = 5 }
