-- ===== src/Scheduler/Create.antt =====
-- `CreateSchedule` of internal/scheduler/service.go: what it stores, and when the schedule first runs.
use kariz.Prelude.{
  ℕ, ◌+◌, ◌*◌, ◌≤◌, ◌<◌, ◌↔◌, ◌≡◌, ◌≢◌, refl, String, true, Option, none, some, [], ◌∷◌, ◌++◌,
  arith, eq_iff, ◌=ₛ◌, if◌then◌else◌, ℤ, pos, negsuc,
}
use kariz.Models.Schedule.{Schedule, CreateScheduleInput}
use kariz.Database.{ok, World, ◌>>=◌, elapse}
use kariz.Database.Calm.{AreCalm, statement-calm}
use kariz.Scheduler.Repository.{Table, find, create, inserted_row, stored_parameters, is_due}
use kariz.Scheduler.Service.{CronParser, first_run, create_schedule}

-- The time after `now` by some seconds is reached just as long as their nanoseconds are an int64.
abbrev pub IsTimeAfter : ℕ → ℤ → ℕ → Type 0
IsTimeAfter now (negsuc n) t = ⊥
IsTimeAfter now (pos n) t = (0 < n) × ((t ≡ now + n * 1000000000) ↔ (n ≤ 9223372036))

find-append :
    (j : String) (rows : Table) (s : Schedule)
    → find s.id rows ≡ none
    → find j (rows ++ s ∷ []) ≡ (if s.id =ₛ j then some s else find j rows)
unfolding find
find-append j [] s h = refl
find-append j (r ∷ rows) s h =
    ground (arith, find-append j rows s, eq_iff r.id s.id, eq_iff r.id j, eq_iff s.id j)

create-calm :
    (s : Schedule) (w : World Table)
    → AreCalm w.latencies
    → find s.id w.tables ≡ none
    → create s w ≡ (ok tt, record (elapse w) { tables = w.tables ++ inserted_row s ∷ [] })
unfolding create
create-calm s w h fresh = rw (statement-calm _ _ w h) (ground arith)

module _ (cron : CronParser) where
  abbrev planned : String → CreateScheduleInput → String → String → Option ℕ → ℕ → Schedule
  planned id input user name next now = record {
    id = id;
    command_id = input.command_id;
    command_name = name;
    created_by_user = user;
    cron_expression = input.cron_expression;
    interval_sec = input.interval_sec;
    parameters = stored_parameters input.parameters;
    is_enabled = true;
    next_run_at = next;
    last_run_at = none;
    created_at = now;
    updated_at = now;
  }

  create_schedule-calm :
      (id : String) (input : CreateScheduleInput) (user name : String) (next : Option ℕ)
      (w : World Table)
      → AreCalm w.latencies
      → find id w.tables ≡ none
      → first_run cron input.cron_expression input.interval_sec w.clock ≡ ok next
      → let s = planned id input user name next w.clock in
        create_schedule cron id input user name w
        ≡ (ok s, record (elapse w) { tables = w.tables ++ inserted_row s ∷ [] })
  unfolding create_schedule ◌>>=◌
  create_schedule-calm id input user name next w h fresh valid =
      rw (valid) (rw (create-calm (planned id input user name next w.clock) w h fresh))

  pub create_schedule-stores :
      (id : String) (input : CreateScheduleInput) (user name : String) (next : Option ℕ)
      (w : World Table)
      → AreCalm w.latencies
      → find id w.tables ≡ none
      → first_run cron input.cron_expression input.interval_sec w.clock ≡ ok next
      → (s : Schedule) × (w' : World Table) × (create_schedule cron id input user name w
          ≡ (ok s, w'))
        × (find id w'.tables ≡ some (inserted_row s))
        × (s.next_run_at ≡ next)
        × (s.is_enabled ≡ true)
        × ((j : String) → id ≢ j → find j w'.tables ≡ find j w.tables)
  create_schedule-stores id input user name next w h fresh valid =
      let s = planned id input user name next w.clock in
      (
        s,
        record (elapse w) { tables = w.tables ++ inserted_row s ∷ [] },
        create_schedule-calm id input user name next w h fresh valid,
        ground (arith, find-append id w.tables (inserted_row s) fresh, eq_iff id id),
        refl,
        refl,
        (λ j ne. ground (arith, find-append j w.tables (inserted_row s) fresh, eq_iff id j)),
      )

  -- An expression that never comes up, for which the cron parser gives the zero time, is accepted, and the stored
  -- schedule is due at once and stays due at any time.
  pub create_schedule-never :
      (id : String) (input : CreateScheduleInput) (user name : String) (spec : cron.Spec)
      (w : World Table)
      → AreCalm w.latencies
      → find id w.tables ≡ none
      → input.cron_expression ≢ ""
      → cron.parse input.cron_expression ≡ ok spec
      → cron.next spec w.clock ≡ 0
      → (s : Schedule) × (w' : World Table) × (create_schedule cron id input user name w
          ≡ (ok s, w'))
        × (find id w'.tables ≡ some (inserted_row s))
        × ((now : ℕ) → is_due now (inserted_row s) ≡ true)
  create_schedule-never id input user name spec w h fresh named parses never =
      let e : first_run cron input.cron_expression input.interval_sec w.clock ≡ ok (some 0) =
        unfold first_run in ground (arith, eq_iff input.cron_expression "") in
      let r = create_schedule-stores id input user name (some 0) w h fresh e in
      (r.0, r.1, r.2, r.3, (λ now. ground (arith, r.4, r.5)))
