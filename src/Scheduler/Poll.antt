-- ===== src/Scheduler/Poll.antt =====
-- The poll of internal/scheduler/service.go: what it executes, and when a schedule is due again.
use kariz.Prelude.{
  ℕ, ◌+◌, ◌≤◌, ◌≡◌, ◌∙◌, ◌=ₛ◌, if◌then◌else◌, inl, inr, Bool-cases, Option-cases, refl, ap, String,
  Option, none, some, List, [], ◌∷◌, ◌++◌, arith, select,
}
use kariz.Models.Errors.{Error}
use kariz.Models.Schedule.{Schedule}
use kariz.Database.{
  Result, ok, err, World, ◌>>=◌, elapse, fault_of, outcome, statement, statement-outcome,
}
use kariz.Scheduler.Repository.{Table, get_due_schedules, update_next_run_at, is_due}
use kariz.Scheduler.Service.{CronParser, Services, Effect, executes, notifies}
use kariz.Scheduler.Trigger.{
  schedule_params, run_command, trigger_found, trigger_schedule, trigger_all, process_found,
  process_due_schedules,
}

module _ (svc : Services) where
  abbrev pub Execution : Type 0
  Execution = svc.Command × svc.Params × String

  -- The executions among the calls of a poll, in order.
  abbrev pub executions : List (Effect svc) → List Execution
  executions [] = []
  executions (executes cmd params user ∷ rest) = (cmd, params, user) ∷ executions rest
  executions (notifies s e ∷ rest) = executions rest

  executions-append :
      (xs ys : List (Effect svc)) → executions (xs ++ ys) ≡ executions xs ++ executions ys
  executions-append [] ys = refl
  executions-append (executes cmd params user ∷ xs) ys =
      ap (◌∷◌ (cmd, params, user)) (executions-append xs ys)
  executions-append (notifies s e ∷ xs) ys = executions-append xs ys

  -- What the text of a schedule's parameters decodes to; an empty text, and none, decode to nothing.
  abbrev decoded : Option String → Option svc.Params
  decoded none = none
  decoded (some text) = if text =ₛ "" then none else svc.decode text

  abbrev or_no_params : Option svc.Params → svc.Params
  or_no_params none = svc.no_params
  or_no_params (some p) = p

  -- What a schedule asks for, by the catalog's answer.
  abbrev pub want : Schedule → Result svc.Command → List Execution
  want s (ok cmd) = (cmd, or_no_params (decoded s.parameters), s.created_by_user) ∷ []
  want s (err e) = []

  -- The executions are those that the schedules ask for, one after the other. The catalog is asked for the command of each
  -- at its `start`, which is `t` or later, and no earlier than that of the schedule before it.
  abbrev pub AreWanted : ℕ → List Schedule → List Execution → Type 0
  AreWanted t [] xs = xs ≡ []
  AreWanted t (s ∷ ss) xs =
      (start : ℕ) × (rest : List Execution) × (t ≤ start)
      × (xs ≡ want s (svc.get_command s.command_id start) ++ rest)
      × AreWanted start ss rest

  -- What a poll at `t` executes, by the fault of its query.
  abbrev pub PollsAt : Option Error → ℕ → Table → List Execution → Type 0
  PollsAt none t rows xs = AreWanted t (select (is_due t) rows) xs
  PollsAt (some e) t rows xs = xs ≡ []

  AreWanted-later :
      (t t' : ℕ) (ss : List Schedule) (xs : List Execution)
      → t ≤ t'
      → AreWanted t' ss xs
      → AreWanted t ss xs
  AreWanted-later t t' [] xs l h = h
  AreWanted-later t t' (s ∷ ss) xs l (start, rest, from, e, more) =
      (start, rest, omega (arith, l, from), e, more)

  module _ (cron : CronParser) where
    schedule_params-decoded :
        (o : Option String) → schedule_params cron svc o ≡ or_no_params (decoded o)
    unfolding schedule_params
    schedule_params-decoded none = refl
    schedule_params-decoded (some text) = elim (Bool-cases (text =ₛ "")) [
      | inl e ↦ rw e refl
      | inr e ↦ elim (Option-cases (svc.decode text)) [
        | inl e' ↦ rw (e, e') refl
        | inr (p, e') ↦ rw (e, e') refl
      ]
    ]

    executions-run_command :
        (s : Schedule) (cmd : svc.Command) (now : ℕ)
        → executions (run_command cron svc s cmd now) ≡ want s (ok cmd)
    unfolding run_command
    executions-run_command s cmd now = ground (arith, schedule_params-decoded s.parameters)

    -- A schedule that is triggered gives the executions that it asks for, and time passes.
    abbrev Triggers :
        Schedule
        → Result svc.Command
        → World Table
        → Result (List (Effect svc)) × World Table
        → Type 0
    Triggers s answer w r =
        (effects : List (Effect svc)) × (r.0 ≡ ok effects)
        × (executions effects ≡ want s answer)
        × (w.clock ≤ r.1.clock)

    statement-later :
        {A : Type 0} (context : String) (sql : ℕ → Table → Result A × Table) (w : World Table)
        → w.clock ≤ (statement context sql w).1.clock
    statement-later context sql w =
        rw (statement-outcome context sql w) (by_fault (fault_of w.latencies))
      where
        by_fault : (fault : Option Error) → w.clock ≤ (outcome context fault sql (elapse w)).1.clock
        by_fault none = omega arith
        by_fault (some e) = omega arith

    trigger_found-Triggers :
        (s : Schedule) (start : ℕ) (r : Result svc.Command) (w : World Table)
        → Triggers s r w (trigger_found cron svc s start r w)
    unfolding trigger_found ◌>>=◌ update_next_run_at
    trigger_found-Triggers s start (ok cmd) w = (
      run_command cron svc s cmd start,
      refl,
      executions-run_command s cmd start,
      statement-later _ _ w,
    )
    trigger_found-Triggers s start (err e) w = ([], refl, refl, omega arith)

    trigger_schedule-Triggers :
        (s : Schedule) (w : World Table)
        → Triggers s (svc.get_command s.command_id w.clock) w (trigger_schedule cron svc s w)
    unfolding trigger_schedule ◌>>=◌
    trigger_schedule-Triggers s w =
        let answer = svc.get_command s.command_id w.clock in
        let (effects, e, x, later) =
          trigger_found-Triggers s w.clock answer
            (record w { clock = w.clock + svc.duration s.command_id w.clock }) in
        (effects, e, x, omega (arith, later))

    abbrev RunsWanted : ℕ → List Schedule → Result (List (Effect svc)) → Type 0
    RunsWanted t ss r =
        (effects : List (Effect svc)) × (r ≡ ok effects) × AreWanted t ss (executions effects)

    trigger_all-executes :
        (ss : List Schedule) (w : World Table) → RunsWanted w.clock ss (trigger_all cron svc ss w).0
    unfolding trigger_all ◌>>=◌
    trigger_all-executes [] w = ([], refl, refl)
    trigger_all-executes (s ∷ ss) w =
        let w' = (trigger_schedule cron svc s w).1 in
        let (first, e, x, later) = trigger_schedule-Triggers s w in
        let (rest, e', x') = trigger_all-executes ss w' in
        (
          first ++ rest,
          rw (e, e') refl,
          (
            w.clock,
            executions rest,
            omega arith,
            executions-append first rest ∙ ap (λ xs. xs ++ executions rest) x,
            AreWanted-later w.clock w'.clock ss (executions rest) later x',
          ),
        )

    process_outcome :
        (fault : Option Error) (w : World Table)
        → let r =
            outcome "get due schedules" fault
              (λ now rows. (ok (select (is_due now) rows), rows))
              w in
          (effects : List (Effect svc)) × ((process_found cron svc r.0 r.1).0 ≡ ok effects)
          × PollsAt fault w.clock w.tables (executions effects)
    unfolding process_found
    process_outcome none w = trigger_all-executes (select (is_due w.clock) w.tables) w
    process_outcome (some e) w = ([], unfold ◌>>=◌ in refl, refl)

    -- A poll whose query does not fail executes the command of each schedule that is due at the query and whose command the
    -- catalog finds when the poll comes to it, once, in the table's order, with what the schedule's
    -- parameters decode to and as its creator, whatever becomes of the executions and of the statements after the query. For each
    -- schedule the catalog is asked at one time, at the query or later, in the table's order. A failing query executes nothing.
    pub process_due_schedules-executes :
        (w : World Table)
        → (effects : List (Effect svc)) × ((process_due_schedules cron svc w).0 ≡ ok effects)
          × PollsAt (fault_of w.latencies) (elapse w).clock w.tables (executions effects)
    unfolding process_due_schedules get_due_schedules
    process_due_schedules-executes w =
        rw
          (statement-outcome "get due schedules" (λ now rows. (ok (select (is_due now) rows), rows))
            w)
          (process_outcome (fault_of w.latencies) (elapse w))
