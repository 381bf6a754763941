-- ===== src/Scheduler/Service.antt =====
-- internal/scheduler/service.go: the creation and the change of schedules, with what the service depends on.
-- The cron parser is the package robfig/cron; the catalog, the executor and the notifications are taken as
-- what their calls answer, and the effect of a poll on them is the list of calls it makes.
use kariz.Prelude.{
  ℕ, ◌+◌, ◌-◌, ◌*◌, ◌%◌, ◌^◌, ◌<◌, ◌≡◌, ◌⊎◌, String, Bool, true, Option, none, some, [], ◌∷◌, ltb,
  ◌=ₛ◌, if◌then◌else◌, ℤ, pos, pos_part, lt_int,
}
use kariz.Models.Errors.{Error, api_error, lit, error_text}
use kariz.Models.Schedule.{Schedule, CreateScheduleInput, UpdateScheduleInput}
use kariz.Database.{
  Result, ok, err, Exec, ◌>>=◌, ◌>>◌, pure, lift, require, ◌or_wrap◌, logged, time_now,
}
use kariz.Scheduler.Repository
use kariz.Scheduler.Repository.{
  Table, create, update, delete, get_by_id, get_due_schedules, update_next_run_at,
}

-- robfig/cron: `Next` gives the first activation after a time, or the zero time if it finds none.
pub record CronParser : Type 1 where
  pub Spec : Type 0
  pub parse : String → Result Spec
  pub next : Spec → ℕ → ℕ
  pub next_later : (s : Spec) (t : ℕ) → (next s t ≡ 0) ⊎ (t < next s t)

-- What the catalog, the JSON decoder, the executor and the notifications answer.
pub record Services : Type 1 where
  pub Command : Type 0
  pub Params : Type 0
  pub get_command : String → ℕ → Result Command
  pub decode : String → Option Params
  pub no_params : Params
  pub execute_command : Command → Params → String → ℕ → Result String
  pub has_notify : Bool
  -- How long looking a command up and starting it take.
  pub duration : String → ℕ → ℕ

-- The calls that change something elsewhere.
pub data Effect (S : Services) : Type 0 where
  executes : S.Command → S.Params → String → Effect S
  notifies : Schedule → Error → Effect S

abbrev pub is_positive : ℤ → Bool
is_positive z = lt_int (pos 0) z

-- `now.Add(time.Duration(n) * time.Second)`: the product wraps around in an int64.
unfoldable pub add_seconds : ℕ → ℕ → ℕ
add_seconds now n =
    let d = n * 1000000000 % 2 ^ 64 in if ltb d (2 ^ 63) then now + d else now - (2 ^ 64 - d)

abbrev bad_interval : Error
bad_interval = api_error "validation_error" (lit "interval_seconds must be positive" ∷ [])

abbrev bad_cron : Error → Error
bad_cron e = api_error "validation_error" (lit "invalid cron expression: " ∷ error_text e)

abbrev pub schedule_not_found : Error
schedule_not_found = api_error "not_found" (lit "schedule not found" ∷ [])

abbrev nothing_given : Error
nothing_given =
    api_error "validation_error" (lit "either cron_expression or interval_seconds is required" ∷ [])

abbrev pub interval_run : Option ℤ → ℕ → Result (Option ℕ)
interval_run none now = err nothing_given
interval_run (some z) now =
    if is_positive z then ok (some (add_seconds now (pos_part z))) else err bad_interval

module _ (cron : CronParser) where
  -- The checks of `CreateSchedule`, with the first run that they give.
  unfoldable pub first_run : String → Option ℤ → ℕ → Result (Option ℕ)
  first_run expression interval now =
      if expression =ₛ "" then interval_run interval now else elim (cron.parse expression) [
        | ok spec ↦ ok (some (cron.next spec now))
        | err e ↦ err (bad_cron e)
      ]

  -- `id` is what `uuid.New` gives.
  unfoldable pub create_schedule :
      String → CreateScheduleInput → String → String → Exec Table Schedule
  unfolding create
  create_schedule id input user name = do
    now ← time_now
    next_run ← lift (first_run input.cron_expression input.interval_sec now)
    let schedule : Schedule = record {
      id = id;
      command_id = input.command_id;
      command_name = name;
      created_by_user = user;
      cron_expression = input.cron_expression;
      interval_sec = input.interval_sec;
      parameters = Repository.stored_parameters input.parameters;
      is_enabled = true;
      next_run_at = next_run;
      last_run_at = none;
      created_at = now;
      updated_at = now;
    }
    create schedule or_wrap "create schedule"
    pure schedule

  unfoldable pub compute_next_run : Schedule → ℕ → Option ℕ
  compute_next_run s now =
      if s.cron_expression =ₛ ""
      then elim s.interval_sec [
        | none ↦ none
        | some z ↦ if is_positive z then some (add_seconds now (pos_part z)) else none
      ]
      else elim (cron.parse s.cron_expression) [
        | ok spec ↦ some (cron.next spec now)
        | err e ↦ none
      ]

  abbrev apply_cron : Option String → Schedule → Result Schedule
  apply_cron none s = ok s
  apply_cron (some expression) s =
      if expression =ₛ ""
      then ok (record s { cron_expression = expression })
      else elim (cron.parse expression) [
        | ok spec ↦ ok (record s { cron_expression = expression })
        | err e ↦ err (bad_cron e)
      ]

  abbrev apply_interval : Option ℤ → Schedule → Result Schedule
  apply_interval none s = ok s
  apply_interval (some z) s =
      if is_positive z then ok (record s { interval_sec = some z }) else err bad_interval

  abbrev apply_parameters : Option (Option String) → Schedule → Schedule
  apply_parameters none s = s
  apply_parameters (some p) s = record s { parameters = p }

  -- The rest of `UpdateSchedule`, once the row is read and the input is applied.
  unfoldable pub store_update : Schedule → Exec Table Schedule
  unfolding compute_next_run update update_next_run_at
  store_update s = do
    now ← time_now
    let stamped = record s { updated_at = now }
    let timed = record stamped {
      next_run_at =
          if stamped.is_enabled then compute_next_run stamped now else stamped.next_run_at;
    }
    update timed or_wrap "update schedule"
    logged (update_next_run_at timed.id timed.next_run_at timed.last_run_at)
    pure timed

  unfoldable pub update_found : Schedule → UpdateScheduleInput → Exec Table Schedule
  update_found existing input = do
    s ← lift (apply_cron input.cron_expression existing)
    t ← lift (apply_interval input.interval_sec s)
    store_update (apply_parameters input.parameters t)

  unfoldable pub update_schedule : String → UpdateScheduleInput → Exec Table Schedule
  unfolding get_by_id update_found
  update_schedule id input = do
    found ← get_by_id id or_wrap "get schedule for update"
    existing ← require schedule_not_found found
    update_found existing input
