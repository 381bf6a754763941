-- ===== src/Scheduler/Repository.antt =====
-- internal/scheduler/repository.go: the statements on the table `schedules`.
use kariz.Prelude.{
  ℕ, String, Bool, false, ◌&&◌, Option, none, some, List, [], ◌∷◌, ◌++◌, leb, select, ◌=ₛ◌,
  if◌then◌else◌,
}
use kariz.Models.Errors.{Error, wrapped, outside, lit, shown}
use kariz.Models.Schedule.{Schedule}
use kariz.Database.{Result, ok, err, Exec, statement}

abbrev pub Table : Type 0
Table = List Schedule

abbrev pub is_row : String → Schedule → Bool
is_row id r = r.id =ₛ id

-- `WHERE id = $1` finds one row at most.
unfoldable pub find : String → Table → Option Schedule
find id [] = none
find id (r ∷ rows) = if is_row id r then some r else find id rows

-- `UPDATE … WHERE id = $1`.
unfoldable pub modify : String → (Schedule → Schedule) → Table → Table
modify id f [] = []
modify id f (r ∷ rows) = (if is_row id r then f r else r) ∷ modify id f rows

unfoldable pub remove : String → Table → Table
remove id [] = []
remove id (r ∷ rows) = let rest = remove id rows in if is_row id r then rest else r ∷ rest

abbrev not_found : String → Error
not_found id = outside (lit "schedule not found: " ∷ shown id ∷ [])

abbrev no_rows : Error
no_rows = wrapped "schedule not found" (outside (lit "sql: no rows in result set" ∷ []))

-- `RowsAffected`: none where the row is not there.
abbrev affecting : Error → Option Schedule → Table → Table → Result (Unit {0}) × Table
affecting missing none rows changed = (err missing, rows)
affecting missing (some _) rows changed = (ok tt, changed)

-- A nil `json.RawMessage` is stored as an empty object.
abbrev pub stored_parameters : Option String → Option String
stored_parameters none = some "{}"
stored_parameters (some p) = some p

abbrev pub inserted_row : Schedule → Schedule
inserted_row s = record s { parameters = stored_parameters s.parameters }

abbrev duplicate_key : Error
duplicate_key = outside (lit "pq: duplicate key value violates unique constraint" ∷ [])

-- `id` is the primary key of the table.
unfoldable pub create : Schedule → Exec Table (Unit {0})
create s = statement "insert schedule" (λ now rows. elim (find s.id rows) [
  | none ↦ (ok tt, rows ++ inserted_row s ∷ [])
  | some _ ↦ (err (wrapped "insert schedule" duplicate_key), rows)
])

-- The four columns that `Update` sets.
abbrev pub updated_row : Schedule → Schedule → Schedule
updated_row s r = record r {
  cron_expression = s.cron_expression;
  interval_sec = s.interval_sec;
  parameters = stored_parameters s.parameters;
  updated_at = s.updated_at;
}

unfoldable pub update : Schedule → Exec Table (Unit {0})
update s = statement "update schedule" (λ now rows.
    affecting (not_found s.id) (find s.id rows) rows (modify s.id (updated_row s) rows))

unfoldable pub delete : String → Exec Table (Unit {0})
delete id =
    statement "delete schedule" (λ now rows. affecting no_rows (find id rows) rows (remove id rows))

unfoldable pub get_by_id : String → Exec Table (Option Schedule)
get_by_id id = statement "get schedule by id" (λ now rows. (ok (find id rows), rows))

-- `is_enabled = true AND next_run_at <= NOW()`; a comparison with NULL does not hold.
abbrev pub is_due : ℕ → Schedule → Bool
is_due now r = r.is_enabled && elim r.next_run_at [ none ↦ false | some t ↦ leb t now ]

unfoldable pub get_due_schedules : Exec Table (List Schedule)
get_due_schedules =
    statement "get due schedules" (λ now rows. (ok (select (is_due now) rows), rows))

abbrev pub retimed_row : Option ℕ → Option ℕ → ℕ → Schedule → Schedule
retimed_row next_run last_run now r = record r {
  next_run_at = next_run;
  last_run_at = last_run;
  updated_at = now;
}

unfoldable pub update_next_run_at : String → Option ℕ → Option ℕ → Exec Table (Unit {0})
update_next_run_at id next_run last_run = statement "update schedule next run at" (λ now rows.
    affecting (not_found id) (find id rows) rows
      (modify id (retimed_row next_run last_run now) rows))
