-- ===== src/Scheduler/Switching.antt =====
-- internal/scheduler/service.go: switching schedules on and off, deleting and reading them.
use kariz.Prelude.{ℕ, String, Bool, true, false, Option, none}
use kariz.Models.Schedule.{Schedule}
use kariz.Database.{Exec, ◌>>=◌, ◌>>◌, pure, require, ◌or_wrap◌, time_now}
use kariz.Scheduler.Repository.{Table, update, delete, get_by_id, update_next_run_at}
use kariz.Scheduler.Service.{CronParser, compute_next_run, schedule_not_found}

-- `setEnabled`, once the row is read.
unfoldable pub store_enabled : String → Bool → Option ℕ → Schedule → Exec Table (Unit {0})
unfolding update update_next_run_at
store_enabled id enabled next_run s = do
  now ← time_now
  let changed = record s { is_enabled = enabled; next_run_at = next_run; updated_at = now }
  update changed or_wrap "update schedule enabled state"
  update_next_run_at id next_run changed.last_run_at or_wrap "update next_run_at"

unfoldable pub set_enabled : String → Bool → Option ℕ → Exec Table (Unit {0})
unfolding get_by_id store_enabled
set_enabled id enabled next_run = do
  found ← get_by_id id or_wrap "get schedule"
  s ← require schedule_not_found found
  store_enabled id enabled next_run s

unfoldable pub disable_schedule : String → Exec Table (Unit {0})
unfolding get_by_id set_enabled
disable_schedule id = do
  found ← get_by_id id or_wrap "get schedule for disable"
  s ← require schedule_not_found found
  set_enabled id false none

unfoldable pub delete_schedule : String → Exec Table (Unit {0})
unfolding delete
delete_schedule id = delete id or_wrap "delete schedule"

unfoldable pub get_schedule : String → Exec Table Schedule
unfolding get_by_id
get_schedule id = do
  found ← get_by_id id or_wrap "get schedule"
  s ← require schedule_not_found found
  pure s

module _ (cron : CronParser) where
  unfoldable pub enable_found : String → Schedule → Exec Table (Unit {0})
  unfolding compute_next_run update_next_run_at set_enabled
  enable_found id s = do
    now ← time_now
    let next_run = compute_next_run cron s now
    update_next_run_at id next_run s.last_run_at or_wrap "update next_run_at on enable"
    set_enabled id true next_run

  unfoldable pub enable_schedule : String → Exec Table (Unit {0})
  unfolding get_by_id enable_found
  enable_schedule id = do
    found ← get_by_id id or_wrap "get schedule for enable"
    s ← require schedule_not_found found
    enable_found id s
