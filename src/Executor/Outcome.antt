-- ===== src/Executor/Outcome.antt =====
-- The end that a run of internal/executor/service.go should come to, and what it should store, notify and signal.
use kariz.Prelude.{
  zero, suc, ◌≡◌, String, Bool, true, false, Option, none, some, List, [], ◌∷◌, ◌++◌, map, select,
  All, if◌then◌else◌, ℤ, pos, negsuc,
}
use kariz.Models.Errors.{Error}
use kariz.Models.Command.{ExecutionMode, create, exec, logs, other}
use kariz.Models.Execution.{
  ExecutionStatus, running, completed, failed, timed_out, ExecutionRecord, ExecInspectResult,
}
use kariz.Database.{Result, ok, err}
use kariz.Executor.{
  Call, updates, notifies, completes, Answers, deadline_exceeded, canceled, ContextError,
}

abbrev pub is_report : Call → Bool
is_report (updates r) = true
is_report (notifies r) = true
is_report (completes id status) = true
is_report c = false

abbrev pub reports : List Call → List Call
reports = select is_report

-- The end that the answers of Docker and of the context lead to; none for a canceled run.
abbrev pub ended :
    Option ContextError → Option ContextError → Option ExecutionStatus → Option ExecutionStatus
ended (some deadline_exceeded) again otherwise = some timed_out
ended (some canceled) (some canceled) otherwise = none
ended (some canceled) (some deadline_exceeded) otherwise = otherwise
ended (some canceled) none otherwise = otherwise
ended none (some canceled) otherwise = none
ended none (some deadline_exceeded) otherwise = otherwise
ended none none otherwise = otherwise

abbrev pub after_step : Option Error → Option ExecutionStatus → Option ExecutionStatus
after_step (some e) otherwise = some failed
after_step none otherwise = otherwise

abbrev pub after_answer : Result String → Option ExecutionStatus → Option ExecutionStatus
after_answer (err e) otherwise = some failed
after_answer (ok x) otherwise = otherwise

abbrev pub is_zero : ℤ → Bool
is_zero z = elim z [ pos zero ↦ true | pos (suc n) ↦ false | negsuc n ↦ false ]

abbrev pub of_inspection : Result ExecInspectResult → ExecutionStatus
of_inspection (err e) = failed
of_inspection (ok i) = if is_zero i.exit_code then completed else failed

abbrev pub verdict_create : Answers → Option ExecutionStatus
verdict_create a =
    after_answer a.container
      (after_step a.start (after_step a.attach (ended a.context a.context_again (some completed))))

abbrev pub verdict : Answers → ExecutionMode → Option ExecutionStatus
verdict a exec =
    after_answer a.exec_id
      (after_step a.attach (ended a.context a.context_again (some (of_inspection a.inspect))))
verdict a logs = after_step a.attach (ended a.context a.context_again (some completed))
verdict a create = verdict_create a
verdict a (other m) = verdict_create a

-- Who is told of the last record of a run: the receivers of notifications, once, and then the stream, once, where
-- there are such.
abbrev pub told : Bool → Bool → ExecutionRecord → List Call
told false false r = []
told true false r = notifies r ∷ []
told false true r = completes r.id r.status ∷ []
told true true r = notifies r ∷ completes r.id r.status ∷ []

-- Running records are stored first. Then, unless the run was canceled, its last record is stored, notified and
-- signalled, with the status `s` and its end.
abbrev pub Concludes : Answers → String → Option ExecutionStatus → List Call → Type 0
Concludes a id none calls =
    (early : List ExecutionRecord) × All (λ r. (r.id ≡ id) × (r.status ≡ running)) early
    × (calls ≡ map updates early)
Concludes a id (some s) calls =
    (early : List ExecutionRecord) × (last : ExecutionRecord) × All
      (λ r. (r.id ≡ id) × (r.status ≡ running)) early
    × (last.id ≡ id)
    × (last.status ≡ s)
    × (last.completed_at ≡ some a.ended)
    × (calls ≡ map updates early ++ updates last ∷ told a.has_notify a.has_streams last)
