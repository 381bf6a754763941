-- ===== src/Catalog.antt =====
-- internal/catalog/validation.go: the checks of a command's fields.
pub mod Fields
pub mod Repository
pub mod Service
pub mod Rows
pub mod Checked
pub mod Versions
pub mod Listing
pub mod Visible
pub mod Examples
use kariz.Prelude.{
  String, Bool, true, false, ◌&&◌, Option, none, some, [], ◌∷◌, Bytes, codes, if◌then◌else◌, ℤ, pos,
  lt_int,
}
use kariz.Models.Errors.{Error, lit, api_error}
use kariz.Models.Command.{ExecutionMode, create, exec, logs, other, LogOptions, default_log_options}
use kariz.Validator.Arguments.{is_space}

abbrev pub max_timeout_seconds : ℤ
max_timeout_seconds = pos 86400

abbrev all_space : Bytes → Bool
all_space [] = true
all_space (c ∷ s) = is_space c && all_space s

-- `strings.TrimSpace(s) == ""`.
abbrev pub is_blank : String → Bool
is_blank s = all_space (codes s)

abbrev invalid : String → Option Error
invalid text = some (api_error "validation_error" (lit text ∷ []))

abbrev pub options_or_default : Option LogOptions → LogOptions
options_or_default none = default_log_options
options_or_default (some o) = o

abbrev check_timeout : ℤ → Option Error
check_timeout timeout =
    if lt_int timeout (pos 0)
    then invalid "timeout_seconds cannot be negative"
    else if lt_int max_timeout_seconds timeout
    then invalid "timeout_seconds cannot exceed 86400 (24 hours)"
    else none

abbrev check_create : String → String → ℤ → Option Error
check_create command image timeout =
    if is_blank command
    then invalid "command_string is required"
    else if is_blank image
    then invalid "docker_image is required for create mode"
    else check_timeout timeout

-- None is nil. An empty mode is that of creation, as is any other text.
unfoldable pub validate_command_fields :
    ExecutionMode → String → String → String → Option LogOptions → ℤ → Option Error
validate_command_fields logs command image target options timeout =
    if is_blank target
    then invalid "target_container is required for logs mode"
    else if lt_int (options_or_default options).tail_lines (pos 0)
    then invalid "log tail_lines must be non-negative"
    else check_timeout timeout
validate_command_fields exec command image target options timeout =
    if is_blank target
    then invalid "target_container is required for exec mode"
    else if is_blank command
    then invalid "command_string is required"
    else check_timeout timeout
validate_command_fields create command image target options timeout =
    check_create command image timeout
validate_command_fields (other m) command image target options timeout =
    check_create command image timeout
