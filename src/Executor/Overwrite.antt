-- ===== src/Executor/Overwrite.antt =====
-- A run of internal/executor/service.go that is cancelled by `CancelExecution` while its container is created.
use kariz.Prelude.{
  Bytes, ◌≡◌, refl, String, Bool, some, List, [], ◌∷◌, ◌++◌, arith, eq_iff, inl, inr, Bool-cases,
}
use kariz.Models.Errors.{Error, Message, lit, error_text}
use kariz.Models.Command.{CommandEntry}
use kariz.Models.Execution.{ExecutionRecord, ExecutionStatus, cancelled, failed}
use kariz.Database.{ok, err, World, ◌>>=◌, elapse}
use kariz.Database.Calm.{AreCalm, later_of-calm}
use kariz.Database.Rows.{find, modify}
use kariz.Executor.{
  Call, tracks, untracks, updates, creates, Answers, fail_execution, finish, notify_completion,
  signal_stream_complete, running_record, create_answered, config_of, run_create_mode,
}
use kariz.Executor.Requests.{State, key, update_record, updated, cancel_execution, carry, carry_all}
use kariz.Executor.Cancel.{with_records, update_record-calm, find-updated, cancel_execution-cancels}

abbrev notices : Answers → ExecutionRecord → String → ExecutionStatus → List Call
notices a r id s = notify_completion a r ++ signal_stream_complete a id s

notices-keep :
    (a : Answers) (r : ExecutionRecord) (id : String) (s : ExecutionStatus) (w : World State)
    → (carry_all (notices a r id s) w).tables.records ≡ w.tables.records
unfolding carry_all ◌>>=◌
notices-keep a r id s w = elim (Bool-cases a.has_notify) [
  | inl e ↦ elim (Bool-cases a.has_streams) [ inl e' ↦ rw (e, e') refl | inr e' ↦ rw (e, e') refl ]
  | inr e ↦ elim (Bool-cases a.has_streams) [ inl e' ↦ rw (e, e') refl | inr e' ↦ rw (e, e') refl ]
]

carry_all-updates :
    (r : ExecutionRecord) (calls : List Call) (w w' : World State)
    → update_record r w ≡ (ok tt, w')
    → carry_all (updates r ∷ calls) w ≡ carry_all calls w'
unfolding carry_all ◌>>=◌
carry_all-updates r calls w w' e = rw e refl

fail_execution-stores :
    (a : Answers) (message : Message) (r row : ExecutionRecord) (w : World State)
    → AreCalm w.latencies
    → find key r.id w.tables.records ≡ some row
    → (s : ExecutionRecord) × (find key r.id
          (carry_all (fail_execution a message r) w).tables.records
        ≡ some s)
      × (s.status ≡ failed)
unfolding fail_execution finish
fail_execution-stores a message r row w h there =
    let r' = record r {
      status = failed;
      stderr = r.stderr ++ message;
      completed_at = some a.ended;
    } in
    (
      updated r' row,
      rw
          (
            carry_all-updates r' (notices a r' r.id failed) w _
                (update_record-calm r' row w h there),
            notices-keep a r' r.id failed
                (with_records (elapse w) (modify key r.id (updated r') w.tables.records)),
          )
          (ground (arith, find-updated r.id r' row w.tables.records there, eq_iff r.id r.id)),
      refl,
    )

carry_all-append :
    (xs ys : List Call) (w : World State) → carry_all (xs ++ ys) w ≡ carry_all ys (carry_all xs w)
unfolding carry_all ◌>>=◌
carry_all-append [] ys w = refl
carry_all-append (x ∷ xs) ys w = carry_all-append xs ys (carry x w).1

module _ (a : Answers) (cmd : CommandEntry) (args : List Bytes) (r : ExecutionRecord) where
  -- The calls of a run in create mode up to the creation of the container, and those after it.
  abbrev opening : List Call
  opening = tracks r.id ∷ updates (running_record a r) ∷ creates (config_of a cmd args) ∷ []

  abbrev closing : Error → List Call
  closing e = create_answered a cmd (err e) (running_record a r) ++ untracks r.id ∷ []

  opening-closing :
      (e : Error) → a.container ≡ err e → run_create_mode a cmd args r ≡ opening ++ closing e
  unfolding run_create_mode
  opening-closing e h = rw h refl

  abbrev runs : ExecutionRecord
  runs = updated (running_record a r) r

  abbrev opened : World State → World State
  opened w =
      (carry (creates (config_of a cmd args)) (
        with_records (elapse (carry (tracks r.id) w).1)
          (modify key r.id (updated (running_record a r)) w.tables.records))).1

  carry_all-opening :
      (w : World State)
      → AreCalm w.latencies
      → find key r.id w.tables.records ≡ some r
      → carry_all opening w ≡ opened w
  unfolding carry_all ◌>>=◌
  carry_all-opening w h there =
      let r' = running_record a r in
      let w₁ = (carry (tracks r.id) w).1 in
      carry_all-updates r' (creates (config_of a cmd args) ∷ []) w₁ _
        (update_record-calm r' r w₁ h there)

  carry_all-closing :
      (e : Error) (row : ExecutionRecord) (w : World State)
      → AreCalm w.latencies
      → find key r.id w.tables.records ≡ some row
      → (last : ExecutionRecord) × (find key r.id (carry_all (closing e) w).tables.records
          ≡ some last)
        × (last.status ≡ failed)
  carry_all-closing e row w h there =
      let (last, found, status) =
        fail_execution-stores a (lit "failed to create container: " ∷ error_text e)
          (running_record a r) row w h there in
      (
        last,
        rw
            (carry_all-append (create_answered a cmd (err e) (running_record a r))
              (untracks r.id ∷ []) w)
            (unfold carry_all ◌>>=◌ in found),
        status,
      )

  found_opened :
      (w : World State)
      → find key r.id w.tables.records ≡ some r
      → find key r.id (opened w).tables.records ≡ some runs
  found_opened w there =
      ground
        (arith, find-updated r.id (running_record a r) r w.tables.records there, eq_iff r.id r.id)

  -- The fault of cancelling before the container runs, if the record is stored and no statement fails: a run in create mode
  -- has asked Docker for its container when `CancelExecution` is called, which succeeds, cancels the context and
  -- stores the status `cancelled`. Docker's call then fails, as it does with a canceled context, and the
  -- rest of the run stores the status `failed` over it, whatever the context answers.
  pub cancel_execution-overwritten :
      (has_streams : Bool) (e : Error) (w : World State)
      → a.container ≡ err e
      → AreCalm w.latencies
      → find key r.id w.tables.records ≡ some r
      → (before after : List Call) × (run_create_mode a cmd args r ≡ before ++ after)
        × (let w₁ = carry_all before w in
            let w₂ = (cancel_execution has_streams r.id w₁).1 in
            (stored last : ExecutionRecord) × ((cancel_execution has_streams r.id w₁).0 ≡ ok tt)
            × (w₂.tables.canceled ≡ r.id ∷ w₁.tables.canceled)
            × (find key r.id w₂.tables.records ≡ some stored)
            × (stored.status ≡ cancelled)
            × (find key r.id (carry_all after w₂).tables.records ≡ some last)
            × (last.status ≡ failed))
  cancel_execution-overwritten has_streams e w fails h there =
      let (w₂, s, ok_run, found, status, _, _, calm, cancels) =
        cancel_execution-cancels has_streams runs (opened w) (later_of-calm w.latencies h)
          (found_opened w there) refl in
      let (last, found', status') = carry_all-closing e s w₂ calm found in
      (
        opening,
        closing e,
        opening-closing e fails,
        rw (carry_all-opening w h there) (
            rw ok_run (
              s,
              last,
              refl,
              cancels (ground (arith, eq_iff r.id r.id)),
              found,
              status,
              found',
              status',
            )),
      )
