-- ===== src/Executor/Locks.antt =====
-- `ExecuteCommand` of internal/executor/service.go: what it stores, and when the lock of a command stops it.
use kariz.Prelude.{
  Bytes, ℕ, zero, suc, ◌≡◌, ◌≢◌, ◌⊎◌, refl, String, true, false, ◌&&◌, none, some, List, [], ◌∷◌,
  ◌++◌, arith, eq_iff, inl, inr, ◌=ₛ◌, length, select,
}
use kariz.Models.Errors.{ValidationError}
use kariz.Models.Command.{CommandEntry}
use kariz.Models.Execution.{ExecutionRecord, queued}
use kariz.Database.{Result, ok, err, World, ◌>>=◌, elapse}
use kariz.Database.Calm.{AreCalm, statement-calm, later_of-calm}
use kariz.Database.Rows.{find, find-append}
use kariz.Executor.Requests.{
  State, key, create_record, inserted, count_running, is_running, Checks, already_running,
  check_concurrency_lock, Started, with_resolved, args_for, queued_record, execute_command,
}

abbrev pub running_of : String → List ExecutionRecord → ℕ
running_of command rows =
    length (select (λ r. (r.command_id =ₛ command) && is_running r.status) rows)

-- A queued execution is not counted.
running_of-queued :
    (command : String) (rows : List ExecutionRecord) (s : ExecutionRecord)
    → is_running s.status ≡ false
    → running_of command (rows ++ s ∷ []) ≡ running_of command rows
running_of-queued command [] s h = ground (arith, h)
running_of-queued command (r ∷ rows) s h = ground (arith, running_of-queued command rows s h)

abbrev appended : World State → ExecutionRecord → World State
appended w r = record (elapse w) {
  tables = record w.tables { records = w.tables.records ++ inserted r ∷ [] };
}

create_record-calm :
    (r : ExecutionRecord) (w : World State)
    → AreCalm w.latencies
    → find key r.id w.tables.records ≡ none
    → create_record r w ≡ (ok tt, appended w r)
unfolding create_record
create_record-calm r w h fresh = rw (statement-calm _ _ w h, fresh) refl

count_running-calm :
    (command : String) (w : World State)
    → AreCalm w.latencies
    → count_running command w ≡ (ok (running_of command w.tables.records), elapse w)
unfolding count_running
count_running-calm command w h = rw (statement-calm _ _ w h) refl

check_idle :
    (cmd : CommandEntry) (w : World State)
    → AreCalm w.latencies
    → cmd.allow_concurrent ≡ false
    → running_of cmd.id w.tables.records ≡ 0
    → check_concurrency_lock cmd w ≡ (ok tt, elapse w)
unfolding check_concurrency_lock ◌>>=◌
check_idle cmd w h alone idle = rw (alone, count_running-calm cmd.id w h, idle) refl

check_busy :
    (cmd : CommandEntry) (n : ℕ) (w : World State)
    → AreCalm w.latencies
    → cmd.allow_concurrent ≡ false
    → running_of cmd.id w.tables.records ≡ suc n
    → check_concurrency_lock cmd w ≡ (err already_running, elapse w)
unfolding check_concurrency_lock ◌>>=◌
check_busy cmd n w h alone busy = rw (alone, count_running-calm cmd.id w h, busy) refl

module _ (checks : Checks) where
  -- The dependencies accept the parameters, and give these arguments and this JSON.
  pub record Accepts (cmd : CommandEntry) (params : checks.Params) : Type 0 where
    pub resolved : checks.Params
    pub errors : List ValidationError
    pub args : List Bytes
    pub json : String
    pub resolves : with_resolved checks cmd.parameter_schema params ≡ ok resolved
    pub is_valid : checks.validate cmd.parameter_schema resolved ≡ (true, errors)
    pub builds : args_for checks cmd.execution_mode cmd resolved ≡ ok args
    pub marshals : checks.marshal resolved ≡ ok json

  abbrev created :
      (cmd : CommandEntry) (params : checks.Params)
      → Accepts cmd params
      → String
      → String
      → ℕ
      → ExecutionRecord
  created cmd params acc id user now = queued_record checks id cmd user acc.json now

  execute_command-calm :
      (id : String) (cmd : CommandEntry) (params : checks.Params) (user : String) (w : World State)
      (acc : Accepts cmd params)
      → AreCalm w.latencies
      → cmd.allow_concurrent ≡ false
      → running_of cmd.id w.tables.records ≡ 0
      → find key id w.tables.records ≡ none
      → let r = created cmd params acc id user (elapse w).clock in
        execute_command checks id cmd params user w
        ≡ (ok (record { record_ = r; args = acc.args }), appended (elapse w) r)
  unfolding execute_command ◌>>=◌
  execute_command-calm id cmd params user w acc h alone idle fresh =
      let r = created cmd params acc id user (elapse w).clock in
      rw
        (
          acc.resolves,
          acc.is_valid,
          check_idle cmd w h alone idle,
          acc.builds,
          acc.marshals,
          create_record-calm r (elapse w) (later_of-calm w.latencies h) fresh,
        )
        refl

  execute_command-busy :
      (id : String) (cmd : CommandEntry) (params : checks.Params) (user : String) (n : ℕ)
      (w : World State)
      → Accepts cmd params
      → AreCalm w.latencies
      → cmd.allow_concurrent ≡ false
      → running_of cmd.id w.tables.records ≡ suc n
      → execute_command checks id cmd params user w ≡ (err already_running, elapse w)
  unfolding execute_command ◌>>=◌
  execute_command-busy id cmd params user n w acc h alone busy =
      rw (acc.resolves, acc.is_valid, check_busy cmd n w h alone busy) refl

  -- The two ends of a call: a new record that is queued, and the conflict, which leaves the table alone.
  abbrev pub IsStarted : CommandEntry → String → World State → Result Started × World State → Type 0
  IsStarted cmd id w (r, w') =
      (started : Started) × (s : ExecutionRecord) × (r ≡ ok started)
      × (find key id w'.tables.records ≡ some s)
      × (s.status ≡ queued)
      × (s.command_id ≡ cmd.id)
      × ((j : String) → id ≢ j → find key j w'.tables.records ≡ find key j w.tables.records)

  abbrev pub IsRefused : World State → Result Started × World State → Type 0
  IsRefused w (r, w') = (r ≡ err already_running) × (w'.tables ≡ w.tables)

  module _ (id : String) (cmd : CommandEntry) (params : checks.Params) (user : String)
      (w : World State) (acc : Accepts cmd params) (h : AreCalm w.latencies)
      (alone : cmd.allow_concurrent ≡ false) (fresh : find key id w.tables.records ≡ none) where
    execute_command-IsStarted :
        running_of cmd.id w.tables.records ≡ 0
        → IsStarted cmd id w (execute_command checks id cmd params user w)
    execute_command-IsStarted idle =
        let r = created cmd params acc id user (elapse w).clock in
        rw (execute_command-calm id cmd params user w acc h alone idle fresh) (
          record { record_ = r; args = acc.args },
          inserted r,
          refl,
          ground (arith, find-append key id w.tables.records (inserted r) fresh, eq_iff id id),
          refl,
          refl,
          (λ j ne.
              ground (arith, find-append key j w.tables.records (inserted r) fresh, eq_iff id j)),
        )

    -- If no statement fails, the ID is new and the dependencies accept the parameters, a command that is not to run
    -- concurrently is started just if none of its executions is stored as running: then its record is stored as
    -- queued and the other records stay, and otherwise the conflict is told and the table stays.
    pub execute_command-locks :
        ((running_of cmd.id w.tables.records ≡ 0)
          × IsStarted cmd id w (execute_command checks id cmd params user w))
        ⊎ ((running_of cmd.id w.tables.records ≢ 0)
            × IsRefused w (execute_command checks id cmd params user w))
    execute_command-locks = by_count (running_of cmd.id w.tables.records) refl
      where
        by_count :
            (n : ℕ)
            → running_of cmd.id w.tables.records ≡ n
            → ((running_of cmd.id w.tables.records ≡ 0)
                × IsStarted cmd id w (execute_command checks id cmd params user w))
              ⊎ ((running_of cmd.id w.tables.records ≢ 0)
                  × IsRefused w (execute_command checks id cmd params user w))
        by_count zero e = inl (e, execute_command-IsStarted e)
        by_count (suc n) e =
            rw (execute_command-busy id cmd params user n w acc h alone e)
              (inr ((λ z. ground (arith, e, z)), (refl, refl)))

    -- The fault of this lock: a queued execution does not hold it. Under the same conditions, where none is running,
    -- two calls that follow each other both start the command, though it is not to run concurrently.
    pub execute_command-twice :
        (id' : String)
        → id ≢ id'
        → find key id' w.tables.records ≡ none
        → running_of cmd.id w.tables.records ≡ 0
        → let (r, w₁) = execute_command checks id cmd params user w in
          let (r', w₂) = execute_command checks id' cmd params user w₁ in
          (s s' : Started) × (r ≡ ok s) × (r' ≡ ok s')
    execute_command-twice id' ne fresh' idle =
        let r = created cmd params acc id user (elapse w).clock in
        let w₁ = appended (elapse w) r in
        let r' = created cmd params acc id' user (elapse w₁).clock in
        let still : running_of cmd.id w₁.tables.records ≡ 0 =
          rw (running_of-queued cmd.id w.tables.records (inserted r) refl) idle in
        let next : find key id' w₁.tables.records ≡ none =
          ground (arith, find-append key id' w.tables.records (inserted r) fresh, eq_iff id id') in
        rw
          (
            execute_command-calm id cmd params user w acc h alone idle fresh,
            execute_command-calm id' cmd params user w₁ acc
                (later_of-calm _ (later_of-calm w.latencies h)) alone still next,
          )
          (
            record { record_ = r; args = acc.args },
            record { record_ = r'; args = acc.args },
            refl,
            refl,
          )
