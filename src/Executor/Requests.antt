-- ===== src/Executor/Requests.antt =====
-- internal/executor/service.go: starting and cancelling executions, and internal/executor/repository.go, the statements
-- on the table `execution_records`. The resolver of variables, the validator and the JSON encoder are parameters.
use kariz.Prelude.{
  Bytes, ℕ, zero, suc, String, Bool, true, false, ◌&&◌, Option, none, some, List, [], ◌∷◌, ◌++◌,
  length, select, ◌=ₛ◌, if◌then◌else◌,
}
use kariz.Models.Errors.{
  Error, api, wrapped, outside, lit, quoted, shown, error_text, ValidationError, api_error,
}
use kariz.Models.Command.{
  CommandEntry, ExecutionMode, exec, logs, create, other, ParameterDefinition,
}
use kariz.Models.Execution.{
  ExecutionStatus, queued, running, completed, failed, timed_out, cancelled, ExecutionRecord,
}
use kariz.Database.{
  Result, ok, err, Exec, World, ◌>>=◌, ◌>>◌, pure, fail, lift, require, ◌or_wrap◌, logged, time_now,
  statement, elapse,
}
use kariz.Database.Rows.{find, modify}
use kariz.Executor.{
  Call, tracks, untracks, owns, disowns, updates, stops, completes, creates, starts, attaches,
  removes, execs, attaches_exec, reads_logs, copies, publishes, notifies,
}

abbrev pub key : ExecutionRecord → String
key r = r.id

-- The table, the maps `ownedContainers` and `runningCancels` (whose entry is the means to cancel), the executions whose
-- context was cancelled, and the calls that requests made.
pub record State : Type 0 where
  pub records : List ExecutionRecord
  pub owned : String → Option String
  pub tracked : String → Bool
  pub canceled : List String
  pub calls : List Call

-- A statement on the table of records.
abbrev pub on_records :
    {A : Type 0} → String → (List ExecutionRecord → Result A × List ExecutionRecord) → Exec State A
on_records context sql =
    statement context (λ now st. let r = sql st.records in (r.0, record st { records = r.1 }))

abbrev stored_parameters : Option String → Option String
stored_parameters none = some "{}"
stored_parameters (some p) = some p

abbrev pub inserted : ExecutionRecord → ExecutionRecord
inserted r = record r { parameters = stored_parameters r.parameters }

abbrev duplicate_key : Error
duplicate_key = outside (lit "pq: duplicate key value violates unique constraint" ∷ [])

unfoldable pub create_record : ExecutionRecord → Exec State (Unit {0})
create_record r = on_records "insert execution record" (λ rows. elim (find key r.id rows) [
  | none ↦ (ok tt, rows ++ inserted r ∷ [])
  | some _ ↦ (err (wrapped "insert execution record" duplicate_key), rows)
])

-- The columns that `Update` sets.
abbrev pub updated : ExecutionRecord → ExecutionRecord → ExecutionRecord
updated r row = record row {
  status = r.status;
  exit_code = r.exit_code;
  stdout = r.stdout;
  stderr = r.stderr;
  container_id = r.container_id;
  started_at = r.started_at;
  completed_at = r.completed_at;
}

abbrev not_found : String → Error
not_found id = outside (lit "execution record not found: " ∷ shown id ∷ [])

abbrev pub update_rows :
    ExecutionRecord
    → List ExecutionRecord
    → Option ExecutionRecord
    → Result (Unit {0}) × List ExecutionRecord
update_rows r rows none = (err (not_found r.id), rows)
update_rows r rows (some _) = (ok tt, modify key r.id (updated r) rows)

unfoldable pub update_record : ExecutionRecord → Exec State (Unit {0})
update_record r =
    on_records "update execution record" (λ rows. update_rows r rows (find key r.id rows))

unfoldable pub get_record : String → Exec State (Option ExecutionRecord)
get_record id = on_records "get execution record by id" (λ rows. (ok (find key id rows), rows))

abbrev pub is_running : ExecutionStatus → Bool
is_running running = true
is_running s = false

unfoldable pub count_running : String → Exec State ℕ
count_running command = on_records "count running executions" (λ rows.
    (ok (length (select (λ r. (r.command_id =ₛ command) && is_running r.status) rows)), rows))

-- What `ExecuteCommand` asks of its other dependencies. `resolve` is none where there is no resolver.
pub record Checks : Type 1 where
  pub Params : Type 0
  pub resolve : Option (List ParameterDefinition → Params → Result Params)
  pub validate : List ParameterDefinition → Params → Bool × List ValidationError
  pub build_args : String → List ParameterDefinition → Params → Result (List Bytes)
  pub marshal : Params → Result String

abbrev pub already_running : Error
already_running =
    api_error "conflict"
      (lit "command is already running and concurrent execution is not allowed" ∷ [])

abbrev pub none_running : ℕ → Exec State (Unit {0})
none_running zero = pure tt
none_running (suc n) = fail already_running

unfoldable pub check_concurrency_lock : CommandEntry → Exec State (Unit {0})
check_concurrency_lock cmd =
    if cmd.allow_concurrent
    then pure tt
    else (do count ← count_running cmd.id or_wrap "check running executions"; none_running count)

-- What the goroutine is started with.
pub record Started : Type 0 where
  pub record_ : ExecutionRecord
  pub args : List Bytes

module _ (checks : Checks) where
  abbrev pub with_resolved : List ParameterDefinition → checks.Params → Result checks.Params
  with_resolved schema params = elim checks.resolve [
    | none ↦ ok params
    | some resolve ↦ elim (resolve schema params) [
      | ok p ↦ ok p
      | err e ↦
          err (api_error "validation_error" (lit "env var resolution failed: " ∷ error_text e))
    ]
  ]

  abbrev pub validated : Bool × List ValidationError → Result (Unit {0})
  validated (true, errors) = ok tt
  validated (false, errors) = err (
      api (record {
        code = "validation_error";
        message = lit "parameter validation failed" ∷ [];
        details = errors;
      }))

  abbrev pub built : Result (List Bytes) → Result (List Bytes)
  built (ok args) = ok args
  built (err e) =
      err (api_error "internal_error" (lit "failed to build command args: " ∷ error_text e))

  abbrev pub args_for : ExecutionMode → CommandEntry → checks.Params → Result (List Bytes)
  args_for logs cmd params = ok []
  args_for exec cmd params =
      built (checks.build_args cmd.command_string cmd.parameter_schema params)
  args_for create cmd params =
      built (checks.build_args cmd.command_string cmd.parameter_schema params)
  args_for (other m) cmd params =
      built (checks.build_args cmd.command_string cmd.parameter_schema params)

  abbrev pub queued_record : String → CommandEntry → String → String → ℕ → ExecutionRecord
  queued_record id cmd user params now = record {
    id = id;
    command_id = cmd.id;
    command_name = cmd.name;
    user_id = user;
    parameters = some params;
    status = queued;
    exit_code = none;
    stdout = [];
    stderr = [];
    container_id = none;
    schedule_id = none;
    started_at = none;
    completed_at = none;
    created_at = now;
  }

  -- `id` is what `uuid.New` gives; the goroutine that is started is `run_mode` of Executor, on what this returns.
  unfoldable pub execute_command :
      String → CommandEntry → checks.Params → String → Exec State Started
  execute_command id cmd given user = do
    params ← lift (with_resolved cmd.parameter_schema given)
    lift (validated (checks.validate cmd.parameter_schema params))
    check_concurrency_lock cmd
    args ← lift (args_for cmd.execution_mode cmd params)
    json ← lift (checks.marshal params) or_wrap "marshal parameters"
    now ← time_now
    let r = queued_record id cmd user json now
    create_record r or_wrap "create execution record"
    pure (record { record_ = r; args = args })

abbrev pub perform : Call → Exec State (Unit {0})
perform call w =
    (ok tt, record w { tables = record w.tables { calls = w.tables.calls ++ call ∷ [] } })

abbrev pub is_open : ExecutionStatus → Bool
is_open queued = true
is_open running = true
is_open completed = false
is_open failed = false
is_open timed_out = false
is_open cancelled = false

abbrev status_name : ExecutionStatus → String
status_name queued = "queued"
status_name running = "running"
status_name completed = "completed"
status_name failed = "failed"
status_name timed_out = "timed_out"
status_name cancelled = "cancelled"

abbrev pub execution_not_found : Error
execution_not_found = api_error "not_found" (lit "execution not found" ∷ [])

abbrev pub cannot_cancel : ExecutionStatus → Error
cannot_cancel s =
    api_error "conflict" (lit "cannot cancel execution with status " ∷ quoted (status_name s) ∷ [])

-- The container that is stopped is one that a run created; the maps' entries are looked up. Stopping takes the time of the
-- environment's next choice, whose failure is only logged.
abbrev pub stop_owned : Option String → Exec State (Unit {0})
stop_owned none w = (ok tt, w)
stop_owned (some container) w = perform (stops container 5) (elapse w)

abbrev pub cancel_tracked : Bool → String → Exec State (Unit {0})
cancel_tracked false id w = (ok tt, w)
cancel_tracked true id w =
    (ok tt, record w { tables = record w.tables { canceled = id ∷ w.tables.canceled } })

abbrev pub stop_run : String → Exec State (Unit {0})
stop_run id w =
    let w₁ = (stop_owned (w.tables.owned id) w).1 in cancel_tracked (w₁.tables.tracked id) id w₁

abbrev pub signal : Bool → String → Exec State (Unit {0})
signal false id = pure tt
signal true id = perform (completes id cancelled)

-- Once the record is read and may be cancelled.
unfoldable pub cancel_open : Bool → ExecutionRecord → Exec State (Unit {0})
cancel_open has_streams r = do
  stop_run r.id
  now ← time_now
  update_record (record r { status = cancelled; completed_at = some now })
      or_wrap "update execution record"
  signal has_streams r.id

unfoldable pub cancel_found : Bool → ExecutionRecord → Exec State (Unit {0})
cancel_found has_streams r =
    if is_open r.status then cancel_open has_streams r else fail (cannot_cancel r.status)

unfoldable pub cancel_execution : Bool → String → Exec State (Unit {0})
cancel_execution has_streams id = do
  found ← get_record id or_wrap "get execution record"
  r ← require execution_not_found found
  cancel_found has_streams r

-- What the calls of a run change here: the table, by statements whose failure is only logged, and the two maps.
abbrev set {ℓ} : {A : Type ℓ} → (String → A) → String → A → String → A
set m id v j = if j =ₛ id then v else m j

abbrev with_owned : String → Option String → Exec State (Unit {0})
with_owned id v w =
    (ok tt, record w { tables = record w.tables { owned = set w.tables.owned id v } })

abbrev with_tracked : String → Bool → Exec State (Unit {0})
with_tracked id v w =
    (ok tt, record w { tables = record w.tables { tracked = set w.tables.tracked id v } })

abbrev pub carry : Call → Exec State (Unit {0})
carry (updates r) = logged (update_record r)
carry (owns id container) = with_owned id (some container)
carry (disowns id) = with_owned id none
carry (tracks id) = with_tracked id true
carry (untracks id) = with_tracked id false
carry (creates c) = perform (creates c)
carry (starts c) = perform (starts c)
carry (attaches c) = perform (attaches c)
carry (stops c n) = perform (stops c n)
carry (removes c) = perform (removes c)
carry (execs c args) = perform (execs c args)
carry (attaches_exec id) = perform (attaches_exec id)
carry (reads_logs c o) = perform (reads_logs c o)
carry (copies id c xs d) = perform (copies id c xs d)
carry (publishes id c) = perform (publishes id c)
carry (notifies r) = perform (notifies r)
carry (completes id s) = perform (completes id s)

unfoldable pub carry_all : List Call → World State → World State
carry_all [] w = w
carry_all (c ∷ calls) w = carry_all calls (carry c w).1
