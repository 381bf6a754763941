-- ===== src/Catalog/Service.antt =====
-- internal/catalog/service.go: the catalog's operations on one command.
use kariz.Prelude.{ℕ, ◌+◌, String, true, Option, none, some, List, [], ◌∷◌, ◌=ₛ◌, if◌then◌else◌}
use kariz.Models.Errors.{Error, lit, quoted, api_error}
use kariz.Models.User.{Role}
use kariz.Models.Command.{
  ExecutionMode, create, exec, logs, other, LogOptions, default_log_options, CommandEntry,
  CreateCommandInput, UpdateCommandInput,
}
use kariz.Database.{Exec, ◌>>=◌, ◌>>◌, pure, fail, require, ◌or_wrap◌, time_now}
use kariz.Auth.Users.{Collation}
use kariz.Catalog.{is_blank, validate_command_fields}
use kariz.Catalog.Repository
use kariz.Catalog.Repository.{Tables}

abbrev pub invalid : String → Error
invalid message = api_error "validation_error" (lit message ∷ [])

abbrev pub name_conflict : String → Error
name_conflict name =
    api_error "conflict" (lit "command with name " ∷ quoted name ∷ lit " already exists" ∷ [])

abbrev pub command_not_found : Error
command_not_found = api_error "not_found" (lit "command not found" ∷ [])

-- An empty mode is `create`.
unfoldable pub mode_or_create : ExecutionMode → ExecutionMode
mode_or_create (other text) = if text =ₛ "" then create else other text
mode_or_create create = create
mode_or_create exec = exec
mode_or_create logs = logs

unfoldable pub options_for : ExecutionMode → Option LogOptions → Option LogOptions
options_for logs none = some default_log_options
options_for logs (some o) = some o
options_for create o = o
options_for exec o = o
options_for (other text) o = o

abbrev pub entry_error : CommandEntry → Option Error
entry_error e =
    validate_command_fields e.execution_mode e.command_string e.docker_image e.target_container
      e.log_options e.timeout_seconds

unfoldable pub refuse : Option Error → Exec Tables (Unit {0})
refuse none = pure tt
refuse (some e) = fail e

unfoldable pub refuse_blank : String → String → Exec Tables (Unit {0})
refuse_blank message name = if is_blank name then fail (invalid message) else pure tt

unfoldable pub refuse_no_role : List Role → Exec Tables (Unit {0})
refuse_no_role [] = fail (invalid "at least one allowed role is required")
refuse_no_role (r ∷ rs) = pure tt

unfoldable pub refuse_taken : String → Option CommandEntry → Exec Tables (Unit {0})
refuse_taken name none = pure tt
refuse_taken name (some e) = fail (name_conflict name)

abbrev pub new_entry : String → ℕ → CreateCommandInput → CommandEntry
new_entry uuid now input = record {
  id = uuid;
  name = input.name;
  description = input.description;
  category = input.category;
  docker_image = input.docker_image;
  command_string = input.command_string;
  parameter_schema = input.parameter_schema;
  allowed_roles = input.allowed_roles;
  resource_limits = input.resource_limits;
  volumes = input.volumes;
  timeout_seconds = input.timeout_seconds;
  allow_concurrent = input.allow_concurrent;
  execution_mode = mode_or_create input.execution_mode;
  target_container = input.target_container;
  log_options = options_for (mode_or_create input.execution_mode) input.log_options;
  artifacts = input.artifacts;
  artifact_destination = input.artifact_destination;
  is_active = true;
  version = 1;
  created_at = now;
  updated_at = now;
}

abbrev pub given {ℓ} : {A : Type ℓ} → Option A → A → A
given none old = old
given (some new) old = new

abbrev pub given_option {ℓ} : {A : Type ℓ} → Option A → Option A → Option A
given_option none old = old
given_option (some new) old = some new

-- The fields that are given, the next version, and the time.
abbrev pub next_entry : UpdateCommandInput → ℕ → CommandEntry → CommandEntry
next_entry input now e = record {
  id = e.id;
  name = given input.name e.name;
  description = given input.description e.description;
  category = given input.category e.category;
  docker_image = given input.docker_image e.docker_image;
  command_string = given input.command_string e.command_string;
  parameter_schema = given input.parameter_schema e.parameter_schema;
  allowed_roles = given input.allowed_roles e.allowed_roles;
  resource_limits = given input.resource_limits e.resource_limits;
  volumes = given input.volumes e.volumes;
  timeout_seconds = given input.timeout_seconds e.timeout_seconds;
  allow_concurrent = given input.allow_concurrent e.allow_concurrent;
  execution_mode = given input.execution_mode e.execution_mode;
  target_container = given input.target_container e.target_container;
  log_options = given_option input.log_options e.log_options;
  artifacts = given input.artifacts e.artifacts;
  artifact_destination = given_option input.artifact_destination e.artifact_destination;
  is_active = e.is_active;
  version = e.version + 1;
  created_at = e.created_at;
  updated_at = now;
}

module _ (order : Collation) where
  abbrev pub refuse_used : String → Exec Tables (Unit {0})
  refuse_used name = do
    same ← Repository.get_by_name order name or_wrap "check name uniqueness"
    refuse_taken name same

  abbrev pub store_new : CommandEntry → Exec Tables CommandEntry
  store_new e = (Repository.create e e.allowed_roles or_wrap "create command") >> pure e

  unfoldable pub create_command : String → CreateCommandInput → Exec Tables CommandEntry
  create_command uuid input = do
    refuse_blank "name is required" input.name
    refuse_no_role input.allowed_roles
    refuse_used input.name
    refuse (entry_error (new_entry uuid 0 input))
    now ← time_now
    store_new (new_entry uuid now input)

  unfoldable pub check_name : String → Option String → Exec Tables (Unit {0})
  check_name old none = pure tt
  check_name old (some name) =
      refuse_blank "name cannot be empty" name
      >> (if name =ₛ old then pure tt else refuse_used name)

  unfoldable pub check_roles : Option (List Role) → Exec Tables (Unit {0})
  check_roles none = pure tt
  check_roles (some roles) = refuse_no_role roles

  abbrev pub store_next : CommandEntry → Exec Tables CommandEntry
  store_next e = (Repository.update e e.allowed_roles or_wrap "update command") >> pure e

  abbrev pub update_found : UpdateCommandInput → CommandEntry → Exec Tables CommandEntry
  update_found input existing = do
    check_name existing.name input.name
    check_roles input.allowed_roles
    refuse (entry_error (next_entry input 0 existing))
    now ← time_now
    store_next (next_entry input now existing)

  unfoldable pub update_command : String → UpdateCommandInput → Exec Tables CommandEntry
  update_command id input = do
    found ← Repository.get_by_id order id or_wrap "get command for update"
    existing ← require command_not_found found
    update_found input existing

  unfoldable pub get_command : String → Exec Tables CommandEntry
  get_command id = do
    found ← Repository.get_by_id order id or_wrap "get command"
    require command_not_found found

unfoldable pub deactivate_command : String → Exec Tables (Unit {0})
deactivate_command id = Repository.deactivate id or_wrap "deactivate command"
