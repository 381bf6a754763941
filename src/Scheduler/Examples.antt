-- ===== src/Scheduler/Examples.antt =====
-- Tests and instances for internal/scheduler/service.go.
use kariz.Prelude.{
  ℕ, ◌+◌, ◌<◌, ◌≡◌, ◌≢◌, ◌⊎◌, refl, inl, inr, String, true, none, some, List, [], ◌∷◌, arith,
  eq_iff, ◌=ₛ◌, if◌then◌else◌, suc, zero, pos,
}
use kariz.Models.Errors.{outside, lit}
use kariz.Models.Schedule.{Schedule, CreateScheduleInput}
use kariz.Database.{Result, ok, err, World, elapse, fault_of, elapsed_of, later_of, ◌>>=◌}
use kariz.Scheduler.Repository.{Table, find, inserted_row, is_due}
use kariz.Scheduler.Service.{
  CronParser, Services, Effect, executes, notifies, add_seconds, create_schedule, update_schedule,
}
use kariz.Scheduler.Switching.{disable_schedule}
use kariz.Scheduler.Trigger.{trigger_schedule, process_due_schedules}
use kariz.Scheduler.Rows.{flags}
use kariz.Scheduler.Flags.{enables, disables, polls, changes, flags-changes}
use kariz.Scheduler.Disable.{disable_schedule-clears, new_interval, update_schedule-rearms}
use kariz.Scheduler.Create.{create_schedule-never}
use kariz.Scheduler.Poll.{executions, PollsAt, process_due_schedules-executes}

-- A parser of two expressions: one that comes up each hour, and one that never does.
abbrev every : ℕ → ℕ → ℕ
every zero t = 0
every (suc n) t = t + suc n

abbrev parsed_cron : String → Result ℕ
parsed_cron s =
    if s =ₛ "@hourly"
    then ok 3600000000000
    else if s =ₛ "0 0 30 2 *"
    then ok 0
    else err (outside (lit "unknown expression" ∷ []))

every-later : (n t : ℕ) → (every n t ≡ 0) ⊎ (t < every n t)
every-later zero t = inl refl
every-later (suc n) t = inr (omega arith)

abbrev cron : CronParser
cron = record { Spec = ℕ; parse = parsed_cron; next = every; next_later = every-later }

abbrev answer : String → Result String
answer id = if id =ₛ "backup" then ok "backup" else err (outside (lit "not found" ∷ []))

abbrev services : Services
services = record {
  Command = String;
  Params = String;
  get_command = (λ id t. answer id);
  decode = (λ text. some text);
  no_params = "";
  execute_command = (λ cmd params user t. err (outside (lit "container is down" ∷ [])));
  has_notify = true;
  duration = (λ id t. 5);
}

abbrev nightly : Schedule
nightly = record {
  id = "s1";
  command_id = "backup";
  command_name = "Backup";
  created_by_user = "ann";
  cron_expression = "";
  interval_sec = some (pos 60);
  parameters = some "{}";
  is_enabled = true;
  next_run_at = some 50;
  last_run_at = none;
  created_at = 1;
  updated_at = 1;
}

-- One schedule, and two statements that take time.
abbrev start : World Table
start = record {
  tables = nightly ∷ [];
  clock = 100;
  latencies = record { elapsed = 3; fault = none } ∷ record { elapsed = 4; fault = none } ∷ [];
}

flags-changes_example :
    flags (changes cron services (disables "s1" ∷ polls ∷ enables "s1" ∷ []) start).tables
    ≡ flags start.tables
flags-changes_example =
    flags-changes cron services (disables "s1" ∷ polls ∷ enables "s1" ∷ []) start

disable_schedule-clears_example :
    (w' : World Table) × (s' : Schedule) × (disable_schedule "s1" start ≡ (ok tt, w'))
    × (find "s1" w'.tables ≡ some s')
    × (s'.next_run_at ≡ none)
    × (s'.is_enabled ≡ true)
    × (s'.cron_expression ≡ "")
    × (s'.interval_sec ≡ some (pos 60))
    × ((j : String) → "s1" ≢ j → find j w'.tables ≡ find j start.tables)
unfolding find
disable_schedule-clears_example = disable_schedule-clears nightly start (refl, (refl, tt)) refl

update_schedule-rearms_example :
    let w₁ = (disable_schedule "s1" start).1 in
    let (r, w₂) = update_schedule cron "s1" (new_interval (pos 30)) w₁ in
    (s' : Schedule) × (find "s1" w₂.tables ≡ some s')
    × (s'.is_enabled ≡ true)
    × (s'.next_run_at ≡ some (add_seconds (elapse w₁).clock 30))
unfolding find
update_schedule-rearms_example =
    update_schedule-rearms cron nightly 30 start (refl, (refl, tt)) refl refl refl (omega arith)

abbrev hourly : String → CreateScheduleInput
hourly expression = record {
  command_id = "backup";
  cron_expression = expression;
  interval_sec = none;
  parameters = none;
}

create_schedule-never_example :
    (s : Schedule) × (w' : World Table) × (create_schedule cron "s2"
        (hourly "0 0 30 2 *")
        "ann"
        "Backup"
        start
      ≡ (ok s, w'))
    × (find "s2" w'.tables ≡ some (inserted_row s))
    × ((now : ℕ) → is_due now (inserted_row s) ≡ true)
unfolding find
create_schedule-never_example =
    create_schedule-never cron "s2" (hourly "0 0 30 2 *") "ann" "Backup" 0 start (refl, (refl, tt))
      refl (ground (arith, eq_iff "0 0 30 2 *" "")) refl refl

process_due_schedules-executes_example :
    (effects : List (Effect services)) × ((process_due_schedules cron services start).0
      ≡ ok effects)
    × PollsAt services
        (fault_of start.latencies)
        (elapse start).clock
        start.tables
        (executions services effects)
process_due_schedules-executes_example = process_due_schedules-executes services cron start

-- The poll starts the backup, and tells that it failed to start.
poll_start :
    (process_due_schedules cron services start).0
    ≡ ok (
        executes "backup" "{}" "ann"
        ∷ notifies nightly (outside (lit "container is down" ∷ []))
        ∷ [])
unfolding process_due_schedules trigger_schedule ◌>>=◌ fault_of elapsed_of later_of
poll_start = refl
