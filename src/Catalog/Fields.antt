-- ===== src/Catalog/Fields.antt =====
-- What commands `validateCommandFields` of internal/catalog/validation.go lets pass.
use kariz.Prelude.{
  ℕ, ◌*◌, ◌^◌, ◌≤◌, ◌<◌, ◌≡◌, ◌↔◌, refl, String, false, Option, none, arith, ℤ, pos, negsuc, lt_int,
}
use kariz.Models.Command.{ExecutionMode, create, exec, logs, other, LogOptions}
use kariz.Catalog.{is_blank, options_or_default, validate_command_fields}

-- What each mode needs.
abbrev pub HasFields : ExecutionMode → String → String → String → Option LogOptions → Type 0
HasFields logs command image target options =
    (is_blank target ≡ false) × (lt_int (options_or_default options).tail_lines (pos 0) ≡ false)
HasFields exec command image target options = (is_blank target ≡ false) × (is_blank command ≡ false)
HasFields create command image target options =
    (is_blank command ≡ false) × (is_blank image ≡ false)
HasFields (other m) command image target options =
    (is_blank command ≡ false) × (is_blank image ≡ false)

-- A number of seconds up to a day, which an int64 of nanoseconds holds. With 0 a run has no time limit.
abbrev pub IsTimeout : ℤ → Type 0
IsTimeout z = (n : ℕ) × (z ≡ pos n) × (n ≤ 86400) × (n * 1000000000 < 2 ^ 63)

fields_sound :
    (mode : ExecutionMode) (command image target : String) (options : Option LogOptions)
    (timeout : ℤ)
    → validate_command_fields mode command image target options timeout ≡ none
    → HasFields mode command image target options × IsTimeout timeout
unfolding validate_command_fields
fields_sound logs command image target options (pos n) h =
    ((ground (arith, h), ground (arith, h)), (n, refl, ground (arith, h), ground (arith, h)))
fields_sound exec command image target options (pos n) h =
    ((ground (arith, h), ground (arith, h)), (n, refl, ground (arith, h), ground (arith, h)))
fields_sound create command image target options (pos n) h =
    ((ground (arith, h), ground (arith, h)), (n, refl, ground (arith, h), ground (arith, h)))
fields_sound (other m) command image target options (pos n) h =
    ((ground (arith, h), ground (arith, h)), (n, refl, ground (arith, h), ground (arith, h)))
fields_sound mode command image target options (negsuc n) h = absurd (ground (arith, h))

fields_complete :
    (mode : ExecutionMode) (command image target : String) (options : Option LogOptions)
    (timeout : ℤ)
    → HasFields mode command image target options × IsTimeout timeout
    → validate_command_fields mode command image target options timeout ≡ none
unfolding validate_command_fields
fields_complete logs command image target options (pos n) ((x, y), (m, e, l, b)) =
    ground (arith, x, y, e, l)
fields_complete exec command image target options (pos n) ((x, y), (m, e, l, b)) =
    ground (arith, x, y, e, l)
fields_complete create command image target options (pos n) ((x, y), (m, e, l, b)) =
    ground (arith, x, y, e, l)
fields_complete (other t) command image target options (pos n) ((x, y), (m, e, l, b)) =
    ground (arith, x, y, e, l)
fields_complete mode command image target options (negsuc n) (h, (m, e, l, b)) =
    absurd (ground (arith, e))

-- A command passes just if it has what its mode needs, and a timeout of 0, by which a run has no limit, or of a day at
-- most, whose nanoseconds do not overflow when an execution is started. A command of mode `logs` needs a target and
-- a number of lines that is not negative; it passes with an empty command string.
pub validate_command_fields-HasFields :
    (mode : ExecutionMode) (command image target : String) (options : Option LogOptions)
    (timeout : ℤ)
    → (validate_command_fields mode command image target options timeout ≡ none)
      ↔ (HasFields mode command image target options × IsTimeout timeout)
validate_command_fields-HasFields mode command image target options timeout = (
  fields_sound mode command image target options timeout,
  fields_complete mode command image target options timeout,
)
