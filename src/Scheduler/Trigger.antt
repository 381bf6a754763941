-- ===== src/Scheduler/Trigger.antt =====
-- internal/scheduler/service.go: the poll for due schedules and what it triggers.
use kariz.Prelude.{ℕ, String, Option, none, some, List, [], ◌∷◌, ◌++◌, ◌=ₛ◌, if◌then◌else◌}
use kariz.Models.Schedule.{Schedule}
use kariz.Models.Errors.{Error}
use kariz.Database.{Result, ok, err, Exec, ◌>>=◌, ◌>>◌, pure, logged, time_now, delay}
use kariz.Scheduler.Repository.{Table, get_due_schedules, update_next_run_at}
use kariz.Scheduler.Service.{CronParser, Services, Effect, executes, notifies, compute_next_run}

module _ (cron : CronParser) (svc : Services) where
  open svc use {
    Command, Params, get_command, decode, no_params, execute_command, has_notify, duration,
  }

  -- An empty text, and one that is not a JSON object, give no parameters.
  unfoldable pub schedule_params : Option String → Params
  schedule_params none = no_params
  schedule_params (some text) =
      if text =ₛ "" then no_params else elim (decode text) [ none ↦ no_params | some p ↦ p ]

  abbrev notification : Schedule → Error → List (Effect svc)
  notification s e = if has_notify then notifies s e ∷ [] else []

  -- The execution of the command, and the notification of its failure to start.
  unfoldable pub run_command : Schedule → Command → ℕ → List (Effect svc)
  unfolding schedule_params
  run_command s cmd now =
      let params = schedule_params s.parameters in
      executes cmd params s.created_by_user
      ∷ elim (execute_command cmd params s.created_by_user now) [
        | ok id ↦ []
        | err e ↦ notification s e
      ]

  unfoldable pub trigger_found : Schedule → ℕ → Result Command → Exec Table (List (Effect svc))
  unfolding run_command compute_next_run update_next_run_at
  trigger_found s start (err e) = pure []
  trigger_found s start (ok cmd) = do
    now ← time_now
    logged (update_next_run_at s.id (compute_next_run cron s now) (some now))
    pure (run_command s cmd start)

  -- Nothing of what fails here is returned: it is logged.
  unfoldable pub trigger_schedule : Schedule → Exec Table (List (Effect svc))
  unfolding trigger_found
  trigger_schedule s = do
    start ← time_now
    delay (duration s.command_id start)
    trigger_found s start (get_command s.command_id start)

  unfoldable pub trigger_all : List Schedule → Exec Table (List (Effect svc))
  trigger_all [] = pure []
  trigger_all (s ∷ schedules) = do
    first ← trigger_schedule s
    rest ← trigger_all schedules
    pure (first ++ rest)

  -- An error of the query ends the poll.
  unfoldable pub process_found : Result (List Schedule) → Exec Table (List (Effect svc))
  unfolding trigger_all
  process_found (err e) = pure []
  process_found (ok schedules) = trigger_all schedules

  unfoldable pub process_due_schedules : Exec Table (List (Effect svc))
  unfolding get_due_schedules process_found
  process_due_schedules w = let r = get_due_schedules w in process_found r.0 r.1
