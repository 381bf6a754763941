-- ===== src/Scheduler/Flags.antt =====
-- Which operations of internal/scheduler/service.go change a stored `is_enabled`: none of them does.
use kariz.Prelude.{ℕ, ◌≡◌, ◌∙◌, refl, String, Bool, Option, List, [], ◌∷◌}
use kariz.Models.Schedule.{Schedule, UpdateScheduleInput}
use kariz.Database.{Result, ok, err, World}
use kariz.Database.Keeps.{Keeps, keeps_rules}
use kariz.Scheduler.Repository.{Table, get_due_schedules}
use kariz.Scheduler.Rows.{
  flags, HasFlags, update-HasFlags, update_next_run_at-HasFlags, get_by_id-HasFlags,
  get_due_schedules-HasFlags,
}
use kariz.Scheduler.Service.{CronParser, Services, store_update, update_found, update_schedule}
use kariz.Scheduler.Switching.{
  store_enabled, set_enabled, disable_schedule, enable_found, enable_schedule,
}
use kariz.Scheduler.Trigger.{
  trigger_found, trigger_schedule, trigger_all, process_found, process_due_schedules,
}

ruleset flag_rules = (
  keeps_rules, update-HasFlags, update_next_run_at-HasFlags, get_by_id-HasFlags,
  get_due_schedules-HasFlags,
)

module _ (fs : List (String × Bool)) where
  set_enabled-HasFlags :
      (id : String) (enabled : Bool) (next : Option ℕ)
      → Keeps (HasFlags fs) (set_enabled id enabled next)
  unfolding set_enabled store_enabled
  set_enabled-HasFlags id enabled next = search flag_rules depth 8

  disable_schedule-HasFlags : (id : String) → Keeps (HasFlags fs) (disable_schedule id)
  unfolding disable_schedule
  disable_schedule-HasFlags id = search (flag_rules, set_enabled-HasFlags) depth 8

module _ (cron : CronParser) (fs : List (String × Bool)) where
  enable_schedule-HasFlags : (id : String) → Keeps (HasFlags fs) (enable_schedule cron id)
  unfolding enable_schedule enable_found
  enable_schedule-HasFlags id = search (flag_rules, set_enabled-HasFlags) depth 8

  update_schedule-HasFlags :
      (id : String) (input : UpdateScheduleInput)
      → Keeps (HasFlags fs) (update_schedule cron id input)
  unfolding update_schedule update_found store_update
  update_schedule-HasFlags id input = search flag_rules depth 10

module _ (cron : CronParser) (svc : Services) (fs : List (String × Bool)) where
  trigger_found-HasFlags :
      (s : Schedule) (start : ℕ) (r : Result svc.Command)
      → Keeps (HasFlags fs) (trigger_found cron svc s start r)
  unfolding trigger_found
  trigger_found-HasFlags s start (err e) = search flag_rules
  trigger_found-HasFlags s start (ok cmd) = search flag_rules depth 8

  trigger_all-HasFlags : (ss : List Schedule) → Keeps (HasFlags fs) (trigger_all cron svc ss)
  unfolding trigger_all trigger_schedule
  trigger_all-HasFlags [] = search flag_rules
  trigger_all-HasFlags (s ∷ ss) =
      let rest = trigger_all-HasFlags ss in search (flag_rules, trigger_found-HasFlags) depth 8

  process_found-HasFlags :
      (r : Result (List Schedule)) → Keeps (HasFlags fs) (process_found cron svc r)
  unfolding process_found
  process_found-HasFlags (err e) = search flag_rules
  process_found-HasFlags (ok ss) = trigger_all-HasFlags ss

-- The calls that change stored schedules, beside creation and deletion.
pub data Change : Type 0 where
  updates : String → UpdateScheduleInput → Change
  enables disables : String → Change
  polls : Change

module _ (cron : CronParser) (svc : Services) where
  abbrev pub change : Change → World Table → World Table
  change (updates id input) w = (update_schedule cron id input w).1
  change (enables id) w = (enable_schedule cron id w).1
  change (disables id) w = (disable_schedule id w).1
  change polls w = (process_due_schedules cron svc w).1

  abbrev pub changes : List Change → World Table → World Table
  changes [] w = w
  changes (c ∷ cs) w = changes cs (change c w)

  flags-change : (c : Change) (w : World Table) → flags (change c w).tables ≡ flags w.tables
  flags-change (updates id input) w =
      (update_schedule-HasFlags cron (flags w.tables) id input).holds w refl
  flags-change (enables id) w = (enable_schedule-HasFlags cron (flags w.tables) id).holds w refl
  flags-change (disables id) w = (disable_schedule-HasFlags (flags w.tables) id).holds w refl
  flags-change polls w =
      unfold process_due_schedules in
      (process_found-HasFlags cron svc (flags w.tables) (get_due_schedules w).0).holds
        (get_due_schedules w).1 ((get_due_schedules-HasFlags (flags w.tables)).holds w refl)

  -- Updating, enabling, disabling and polling change no stored `is_enabled`, in whatever order they come
  -- and whichever statements fail: `DisableSchedule` leaves the flag true, and `EnableSchedule` leaves it false.
  pub flags-changes :
      (cs : List Change) (w : World Table) → flags (changes cs w).tables ≡ flags w.tables
  flags-changes [] w = refl
  flags-changes (c ∷ cs) w = flags-changes cs (change c w) ∙ flags-change c w
