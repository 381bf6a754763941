-- ===== src/Executor.antt =====
-- internal/executor/service.go: the goroutine that carries an execution out. What the Docker daemon, the clock and the
-- context answer in a run are parameters, and the run is the list of calls that change something
-- elsewhere, in order.
pub mod Outcome
pub mod Reports
pub mod Requests
pub mod Cancel
pub mod Overwrite
pub mod Locks
pub mod Validated
pub mod Containers
pub mod Handlers
pub mod Access
pub mod Examples
use kariz.Prelude.{
  Bytes, ℕ, zero, suc, String, Bool, true, false, Option, none, some, List, [], ◌∷◌, ◌++◌, ◌=ₛ◌,
  if◌then◌else◌, ℤ, pos, negsuc,
}
use kariz.Models.Errors.{Error, Message, lit, shown, error_text}
use kariz.Models.Command.{
  CommandEntry, LogOptions, default_log_options, ArtifactDeclare, ArtifactDestConfig, create, exec,
  logs, other,
}
use kariz.Models.Execution.{
  ExecutionStatus, running, completed, failed, timed_out, OutputChunk, ExecutionRecord,
  ContainerConfig, ExecInspectResult,
}
use kariz.Database.{Result, ok, err}

-- `tracks` and `owns` store an entry in the maps `runningCancels` and `ownedContainers`; `updates`
-- is the statement of `repo.Update`.
pub data Call : Type 0 where
  tracks untracks : String → Call
  owns : String → String → Call
  disowns : String → Call
  updates : ExecutionRecord → Call
  creates : ContainerConfig → Call
  starts attaches : String → Call
  stops : String → ℕ → Call
  removes : String → Call
  execs : String → List Bytes → Call
  attaches_exec : String → Call
  reads_logs : String → LogOptions → Call
  copies : String → String → List ArtifactDeclare → Option ArtifactDestConfig → Call
  publishes : String → OutputChunk → Call
  notifies : ExecutionRecord → Call
  completes : String → ExecutionStatus → Call

-- `execCtx.Err()`.
pub data ContextError : Type 0 where
  deadline_exceeded canceled : ContextError

abbrev pub status_of : ℤ → ExecutionStatus
status_of (pos zero) = completed
status_of (pos (suc n)) = failed
status_of (negsuc n) = failed

-- What a run is told. `output` is what the channel of chunks gives until it is closed; the context is asked twice.
pub record Answers : Type 0 where
  pub started : ℕ
  pub ended : ℕ
  pub container : Result String
  pub start : Option Error
  pub attach : Option Error
  pub exec_id : Result String
  pub output : List OutputChunk
  pub context : Option ContextError
  pub context_again : Option ContextError
  pub inspect : Result ExecInspectResult
  pub has_streams : Bool
  pub has_notify : Bool
  pub has_copier : Bool

abbrev pub text_of : String → List OutputChunk → Message
text_of stream [] = []
text_of stream (c ∷ chunks) =
    let rest = text_of stream chunks in if c.stream =ₛ stream then shown c.text ∷ rest else rest

module _ (a : Answers) where
  abbrev pub published : String → List OutputChunk → List Call
  published id [] = []
  published id (c ∷ chunks) =
      let rest = published id chunks in if a.has_streams then publishes id c ∷ rest else rest

  abbrev pub notify_completion : ExecutionRecord → List Call
  notify_completion r = if a.has_notify then notifies r ∷ [] else []

  abbrev pub signal_stream_complete : String → ExecutionStatus → List Call
  signal_stream_complete id status = if a.has_streams then completes id status ∷ [] else []

  -- `completed_at` is set, and the record is stored and told to the others.
  pub finish : ExecutionRecord → List Call
  finish r =
      let r' = record r { completed_at = some a.ended } in
      updates r' ∷ notify_completion r' ++ signal_stream_complete r'.id r'.status

  pub fail_execution : Message → ExecutionRecord → List Call
  fail_execution message r = finish (record r { status = failed; stderr = r.stderr ++ message })

  abbrev pub failing : String → Error → ExecutionRecord → List Call
  failing what e = fail_execution (lit what ∷ error_text e)

  pub stop_and_fail : String → Message → ExecutionRecord → List Call
  stop_and_fail container message r = stops container 5 ∷ fail_execution message r

  pub timeout_exec_execution : ExecutionRecord → List Call
  timeout_exec_execution r = finish (record r { status = timed_out })

  pub timeout_execution : String → ExecutionRecord → List Call
  timeout_execution container r = stops container 5 ∷ finish (record r { status = timed_out })

  pub complete_execution : ExecutionRecord → List Call
  complete_execution r = finish (record r { exit_code = some (pos 0); status = completed })

  abbrev pub captured : ExecutionRecord → ExecutionRecord
  captured r = record r { stdout = text_of "stdout" a.output; stderr = text_of "stderr" a.output }

  -- The two questions about the context after the output: the deadline, then cancellation.
  abbrev pub is_deadline : Option ContextError → Bool
  is_deadline none = false
  is_deadline (some deadline_exceeded) = true
  is_deadline (some canceled) = false

  abbrev pub is_canceled : Option ContextError → Bool
  is_canceled none = false
  is_canceled (some deadline_exceeded) = false
  is_canceled (some canceled) = true

  pub unless_ended : Option ContextError → Option ContextError → List Call → List Call → List Call
  unless_ended context again timeout rest =
      if is_deadline context then timeout else if is_canceled again then [] else rest

  abbrev pub is_empty : {A : Type 0} → List A → Bool
  is_empty [] = true
  is_empty (x ∷ xs) = false

  abbrev pub running_record : ExecutionRecord → ExecutionRecord
  running_record r = record r { started_at = some a.started; status = running }

  module _ (cmd : CommandEntry) where
    abbrev pub copied : String → String → List Call
    copied id container =
        if a.has_copier
        then if is_empty cmd.artifacts
          then []
          else copies id container cmd.artifacts cmd.artifact_destination ∷ []
        else []

    -- Once the stream is attached.
    pub create_attached : String → ExecutionRecord → List Call
    create_attached container r =
        let r' = captured r in
        published r.id a.output
        ++ unless_ended a.context a.context_again (timeout_execution container r')
            (copied r.id container ++ complete_execution r')

    abbrev pub create_started : Option Error → String → ExecutionRecord → List Call
    create_started (some e) container r =
        stop_and_fail container (lit "failed to attach stream: " ∷ error_text e) r
    create_started none container r = create_attached container r

    abbrev pub create_made : Option Error → String → ExecutionRecord → List Call
    create_made (some e) container r = failing "failed to start container: " e r
    create_made none container r = attaches container ∷ create_started a.attach container r

    abbrev pub create_answered : Result String → ExecutionRecord → List Call
    create_answered (err e) r = failing "failed to create container: " e r
    create_answered (ok container) r =
        let r' = record r { container_id = some container } in
        updates r'
        ∷ owns r.id container
        ∷ starts container
        ∷ (create_made a.start container r' ++ removes container ∷ disowns r.id ∷ [])

    abbrev pub config_of : List Bytes → ContainerConfig
    config_of args = record {
      image = cmd.docker_image;
      command = args;
      volumes = cmd.volumes;
      resource_limits = cmd.resource_limits;
    }

    pub run_create_mode : List Bytes → ExecutionRecord → List Call
    run_create_mode args r =
        let r' = running_record r in
        tracks r.id
        ∷ updates r'
        ∷ creates (config_of args)
        ∷ (create_answered a.container r' ++ untracks r.id ∷ [])

    -- The exit code decides.
    abbrev pub inspected : Result ExecInspectResult → ExecutionRecord → List Call
    inspected (err e) r = failing "failed to inspect exec: " e r
    inspected (ok i) r =
        copied r.id cmd.target_container
        ++ finish (record r { exit_code = some i.exit_code; status = status_of i.exit_code })

    pub exec_attached : Option Error → ExecutionRecord → List Call
    exec_attached (some e) r = failing "failed to attach exec stream: " e r
    exec_attached none r =
        let r' = captured r in
        published r.id a.output
        ++ unless_ended a.context a.context_again (timeout_exec_execution r')
            (inspected a.inspect r')

    abbrev pub exec_made : Result String → ExecutionRecord → List Call
    exec_made (err e) r = failing "failed to create exec: " e r
    exec_made (ok id) r = attaches_exec id ∷ exec_attached a.attach r

    abbrev pub on_target : ExecutionRecord → ExecutionRecord
    on_target r = record (running_record r) { container_id = some cmd.target_container }

    pub run_exec_mode : List Bytes → ExecutionRecord → List Call
    run_exec_mode args r =
        let r' = on_target r in
        tracks r.id
        ∷ updates r'
        ∷ execs cmd.target_container args
        ∷ (exec_made a.exec_id r' ++ untracks r.id ∷ [])

    abbrev pub log_options : LogOptions
    log_options = elim cmd.log_options [ none ↦ default_log_options | some o ↦ o ]

    pub logs_attached : Option Error → ExecutionRecord → List Call
    logs_attached (some e) r = failing "failed to stream container logs: " e r
    logs_attached none r =
        let r' = captured r in
        published r.id a.output
        ++ unless_ended a.context a.context_again (timeout_exec_execution r')
            (complete_execution r')

    pub run_logs_mode : ExecutionRecord → List Call
    run_logs_mode r =
        let r' = on_target r in
        tracks r.id
        ∷ updates r'
        ∷ reads_logs cmd.target_container log_options
        ∷ (logs_attached a.attach r' ++ untracks r.id ∷ [])

    -- The goroutine that `ExecuteCommand` starts.
    pub run_mode : List Bytes → ExecutionRecord → List Call
    run_mode args r = elim cmd.execution_mode [
      | exec ↦ run_exec_mode args r
      | logs ↦ run_logs_mode r
      | create ↦ run_create_mode args r
      | other m ↦ run_create_mode args r
    ]
