-- ===== src/Scheduler/Disable.antt =====
-- What `DisableSchedule` of internal/scheduler/service.go does to a row, and what an update does after it.
use kariz.Prelude.{
  ℕ, ◌≡◌, ◌≢◌, ◌<◌, refl, ℤ, pos, String, Bool, true, false, Option, none, some, [], ◌∷◌, arith,
  eq_iff, ◌=ₛ◌, if◌then◌else◌,
}
use kariz.Models.Schedule.{Schedule, UpdateScheduleInput}
use kariz.Database.{ok, World, ◌>>=◌, elapse}
use kariz.Database.Calm.{AreCalm, statement-calm, later_of-calm}
use kariz.Scheduler.Repository.{
  Table, find, modify, get_by_id, update, updated_row, update_next_run_at, retimed_row,
}
use kariz.Scheduler.Rows.{find-modify}
use kariz.Scheduler.Service.{
  CronParser, add_seconds, is_positive, compute_next_run, update_schedule, update_found,
  store_update,
}
use kariz.Scheduler.Switching.{disable_schedule, set_enabled, store_enabled}

get_by_id-calm :
    (id : String) (w : World Table)
    → AreCalm w.latencies
    → get_by_id id w ≡ (ok (find id w.tables), elapse w)
unfolding get_by_id
get_by_id-calm id w h = rw (statement-calm _ _ w h)

update-calm :
    (s r : Schedule) (w : World Table)
    → AreCalm w.latencies
    → find s.id w.tables ≡ some r
    → update s w ≡ (ok tt, record (elapse w) { tables = modify s.id (updated_row s) w.tables })
unfolding update
update-calm s r w h there = rw (statement-calm _ _ w h) (rw there)

update_next_run_at-calm :
    (id : String) (next last : Option ℕ) (r : Schedule) (w : World Table)
    → AreCalm w.latencies
    → find id w.tables ≡ some r
    → update_next_run_at id next last w ≡ (
      ok tt,
      record (elapse w) { tables = modify id (retimed_row next last (elapse w).clock) w.tables },
    )
unfolding update_next_run_at
update_next_run_at-calm id next last r w h there = rw (statement-calm _ _ w h) (rw there)

id-find : (id : String) (rows : Table) (r : Schedule) → find id rows ≡ some r → r.id ≡ id
unfolding find
id-find id [] r h = cc
id-find id (s ∷ rows) r h = ground (arith, id-find id rows r, eq_iff s.id id)

abbrev stored_flag : Bool → Option ℕ → ℕ → Schedule → Schedule
stored_flag enabled next now s = record s {
  is_enabled = enabled;
  next_run_at = next;
  updated_at = now;
}

-- The tables after the two statements of `setEnabled`.
abbrev after_update : Schedule → World Table → World Table
after_update s w = record (elapse w) { tables = modify s.id (updated_row s) w.tables }

abbrev after_retime : String → Option ℕ → Option ℕ → World Table → World Table
after_retime id next last w = record (elapse w) {
  tables = modify id (retimed_row next last (elapse w).clock) w.tables;
}

find-after_update :
    (s r : Schedule) (w : World Table)
    → find s.id w.tables ≡ some r
    → find s.id (after_update s w).tables ≡ some (updated_row s r)
find-after_update s r w h =
    ground (arith, find-modify s.id s.id (updated_row s) w.tables (λ r. refl), eq_iff s.id s.id)

store_enabled-calm :
    (enabled : Bool) (next : Option ℕ) (s r : Schedule) (w : World Table)
    → AreCalm w.latencies
    → find s.id w.tables ≡ some r
    → store_enabled s.id enabled next s w ≡ (
      ok tt,
      after_retime s.id next s.last_run_at (after_update (stored_flag enabled next w.clock s) w),
    )
unfolding store_enabled ◌>>=◌
store_enabled-calm enabled next s r w h there =
    let changed = stored_flag enabled next w.clock s in
    rw (update-calm changed r w h there) (
      rw (
        update_next_run_at-calm s.id next s.last_run_at (updated_row changed r)
          (after_update changed w) (later_of-calm w.latencies h)
          (find-after_update changed r w there)))

set_enabled-calm :
    (enabled : Bool) (next : Option ℕ) (s : Schedule) (w : World Table)
    → AreCalm w.latencies
    → find s.id w.tables ≡ some s
    → set_enabled s.id enabled next w ≡ (
      ok tt,
      after_retime s.id next s.last_run_at
          (after_update (stored_flag enabled next (elapse w).clock s) (elapse w)),
    )
unfolding set_enabled ◌>>=◌
set_enabled-calm enabled next s w h there =
    rw (get_by_id-calm s.id w h, there)
      (store_enabled-calm enabled next s s (elapse w) (later_of-calm w.latencies h) there)

-- The world after a `DisableSchedule` of the row `s` in which no statement fails.
abbrev disabled : Schedule → World Table → World Table
disabled s w =
    let w₁ = elapse w in
    after_retime s.id none s.last_run_at
      (after_update (stored_flag false none (elapse w₁).clock s) (elapse w₁))

disable_schedule-calm :
    (s : Schedule) (w : World Table)
    → AreCalm w.latencies
    → find s.id w.tables ≡ some s
    → disable_schedule s.id w ≡ (ok tt, disabled s w)
unfolding disable_schedule ◌>>=◌
disable_schedule-calm s w h there =
    rw (get_by_id-calm s.id w h, there)
      (set_enabled-calm false none s (elapse w) (later_of-calm w.latencies h) there)

abbrev disabled_row : Schedule → World Table → Schedule
disabled_row s w =
    let w₁ = elapse (elapse w) in
    retimed_row none s.last_run_at (elapse (elapse w₁)).clock
      (updated_row (stored_flag false none w₁.clock s) s)

find-disabled :
    (j : String) (s : Schedule) (w : World Table)
    → find s.id w.tables ≡ some s
    → find j (disabled s w).tables
      ≡ (if s.id =ₛ j then some (disabled_row s w) else find j w.tables)
find-disabled j s w there =
    let w₁ = elapse (elapse w) in
    let u = updated_row (stored_flag false none w₁.clock s) in
    ground (
      arith,
      find-modify j s.id (retimed_row none s.last_run_at (elapse (elapse w₁)).clock)
          (modify s.id u w.tables) (λ r. refl),
      find-modify j s.id u w.tables (λ r. refl),
      eq_iff s.id j,
    )

-- If no statement fails, `DisableSchedule` of a stored schedule succeeds and clears its next run, so that no
-- poll finds it; its stored `is_enabled`, its cron expression and its interval stay, and so does every other row.
pub disable_schedule-clears :
    (s : Schedule) (w : World Table)
    → AreCalm w.latencies
    → find s.id w.tables ≡ some s
    → (w' : World Table) × (s' : Schedule) × (disable_schedule s.id w ≡ (ok tt, w'))
      × (find s.id w'.tables ≡ some s')
      × (s'.next_run_at ≡ none)
      × (s'.is_enabled ≡ s.is_enabled)
      × (s'.cron_expression ≡ s.cron_expression)
      × (s'.interval_sec ≡ s.interval_sec)
      × ((j : String) → s.id ≢ j → find j w'.tables ≡ find j w.tables)
disable_schedule-clears s w h there = (
  disabled s w,
  disabled_row s w,
  disable_schedule-calm s w h there,
  ground (arith, find-disabled s.id s w there, eq_iff s.id s.id),
  refl,
  refl,
  refl,
  refl,
  (λ j ne. ground (arith, find-disabled j s w there, eq_iff s.id j)),
)

abbrev pub new_interval : ℤ → UpdateScheduleInput
new_interval z = record { cron_expression = none; interval_sec = some z; parameters = none }

module _ (cron : CronParser) where
  -- What `UpdateSchedule` stores of a row to which the input was applied.
  abbrev timed : Schedule → ℕ → Schedule
  timed s now =
      let stamped = record s { updated_at = now } in
      record stamped {
        next_run_at =
            if stamped.is_enabled then compute_next_run cron stamped now else stamped.next_run_at;
      }

  store_update-calm :
      (s r : Schedule) (w : World Table)
      → AreCalm w.latencies
      → find s.id w.tables ≡ some r
      → store_update cron s w ≡ (
        ok (timed s w.clock),
        after_retime s.id
            (timed s w.clock).next_run_at
            s.last_run_at
            (after_update (timed s w.clock) w),
      )
  unfolding store_update ◌>>=◌
  store_update-calm s r w h there = rw (update-calm (timed s w.clock) r w h there) (
      rw (
        update_next_run_at-calm s.id (timed s w.clock).next_run_at s.last_run_at
          (updated_row (timed s w.clock) r) (after_update (timed s w.clock) w)
          (later_of-calm w.latencies h) (find-after_update (timed s w.clock) r w there)))

  abbrev at_interval : ℕ → Schedule → Schedule
  at_interval n s = record s { interval_sec = some (pos n) }

  update_schedule-calm :
      (s : Schedule) (n : ℕ) (w : World Table)
      → AreCalm w.latencies
      → find s.id w.tables ≡ some s
      → 0 < n
      → let w₁ = elapse w in
        let t = timed (at_interval n s) w₁.clock in
        update_schedule cron s.id (new_interval (pos n)) w
        ≡ (ok t, after_retime s.id t.next_run_at s.last_run_at (after_update t w₁))
  unfolding update_schedule update_found ◌>>=◌
  update_schedule-calm s n w h there positive =
      let e : is_positive (pos n) ≡ true = ground arith in
      rw (get_by_id-calm s.id w h, there, e)
        (store_update-calm (at_interval n s) s (elapse w) (later_of-calm w.latencies h) there)

  compute_interval :
      (s : Schedule) (n now : ℕ)
      → s.cron_expression ≡ ""
      → 0 < n
      → compute_next_run cron (record (at_interval n s) { updated_at = now }) now
        ≡ some (add_seconds now n)
  unfolding compute_next_run
  compute_interval s n now plain positive = ground (arith, eq_iff s.cron_expression "")

  find-updated :
      (t : Schedule) (last : Option ℕ) (s : Schedule) (w : World Table)
      → find t.id w.tables ≡ some s
      → let w₁ = after_update t w in
        find t.id (after_retime t.id t.next_run_at last w₁).tables
        ≡ some (retimed_row t.next_run_at last (elapse w₁).clock (updated_row t s))
  find-updated t last s w there =
      let w₁ = after_update t w in
      ground (
        arith,
        find-modify t.id t.id (retimed_row t.next_run_at last (elapse w₁).clock) w₁.tables
            (λ r. refl),
        find-after_update t s w there,
        eq_iff t.id t.id,
      )

  -- The fault that this leaves: an update of the interval of a schedule that was just disabled arms it
  -- again.
  pub update_schedule-rearms :
      (s : Schedule) (n : ℕ) (w : World Table)
      → AreCalm w.latencies
      → find s.id w.tables ≡ some s
      → s.is_enabled ≡ true
      → s.cron_expression ≡ ""
      → 0 < n
      → let w₁ = (disable_schedule s.id w).1 in
        let (r, w₂) = update_schedule cron s.id (new_interval (pos n)) w₁ in
        (s' : Schedule) × (find s.id w₂.tables ≡ some s')
        × (s'.is_enabled ≡ true)
        × (s'.next_run_at ≡ some (add_seconds (elapse w₁).clock n))
  update_schedule-rearms s n w h there on plain positive =
      let d = disabled_row s w in
      let w₁ = disabled s w in
      let now = (elapse w₁).clock in
      let t = timed (at_interval n d) now in
      let calm : AreCalm w₁.latencies =
        later_of-calm _ (later_of-calm _ (later_of-calm _ (later_of-calm w.latencies h))) in
      let kept : find s.id w₁.tables ≡ some d =
        ground (arith, find-disabled s.id s w there, eq_iff s.id s.id) in
      rw (disable_schedule-calm s w h there, update_schedule-calm d n w₁ calm kept positive)
        (
          retimed_row t.next_run_at s.last_run_at (elapse (after_update t (elapse w₁))).clock
              (updated_row t d),
          find-updated t s.last_run_at d (elapse w₁) kept,
          on,
          ground (arith, compute_interval d n now plain positive),
        )
