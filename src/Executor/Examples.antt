-- ===== src/Executor/Examples.antt =====
-- Tests and instances for internal/executor/service.go.
use kariz.Prelude.{
  ℕ, codes, ◌≡◌, ◌≢◌, ◌⊎◌, refl, String, true, false, none, some, List, [], ◌∷◌, ◌++◌, arith,
  eq_iff, pos,
}
use kariz.Models.Errors.{lit, outside}
use kariz.Models.Command.{CommandEntry, create}
use kariz.Models.Execution.{ExecutionRecord, queued, failed, cancelled}
use kariz.Database.{Result, ok, err, World, elapse, ◌>>=◌, fault_of, elapsed_of, later_of}
use kariz.Database.Calm.{AreCalm}
use kariz.Database.Rows.{find}
use kariz.Executor.{Call, Answers, deadline_exceeded, canceled}
use kariz.Validator.{validate}
use kariz.Executor.{run_create_mode, run_exec_mode, run_logs_mode}
use kariz.Executor.Containers.{touching, Life, run_create_mode-Life, run_exec_mode-leaves}
use kariz.Models.User.{SessionData}
use kariz.Auth.{has_role}
use kariz.Auth.Middleware.{has_role_intersection}
use kariz.Executor.Handlers.{run_found, or_service, execute}
use kariz.Executor.Access.{IsAllowed, execute-IsAllowed}
use kariz.Executor.Requests.{
  State, key, get_record, Checks, Started, is_open, cancel_execution, cannot_cancel,
  execution_not_found, carry_all, execute_command, queued_record, create_record, count_running,
  check_concurrency_lock,
}
use kariz.Executor.Cancel.{ready, EndsContext, cancel_execution-cancels, cancel_execution-refuses}
use kariz.Executor.Overwrite.{cancel_execution-overwritten}
use kariz.EnvVar.{Environment}
use kariz.Executor.Locks.{
  running_of, Accepts, IsStarted, IsRefused, execute_command-locks, execute_command-twice,
}

abbrev backup : CommandEntry
backup = record {
  id = "backup";
  name = "Backup";
  description = "";
  category = "";
  docker_image = "alpine";
  command_string = "true";
  parameter_schema = [];
  allowed_roles = "admin" ∷ [];
  resource_limits = record { cpu_shares = none; memory_mb = none; cpu_count = none };
  volumes = [];
  timeout_seconds = pos 60;
  allow_concurrent = false;
  execution_mode = create;
  target_container = "";
  log_options = none;
  artifacts = [];
  artifact_destination = none;
  is_active = true;
  version = 1;
  created_at = 0;
  updated_at = 0;
}

abbrev first : ExecutionRecord
first = record {
  id = "e1";
  command_id = "backup";
  command_name = "Backup";
  user_id = "ann";
  parameters = some "{}";
  status = queued;
  exit_code = none;
  stdout = [];
  stderr = [];
  container_id = none;
  schedule_id = none;
  started_at = none;
  completed_at = none;
  created_at = 1;
}

-- The container writes one line, and the deadline passes.
abbrev late : Answers
late = record {
  started = 2;
  ended = 62;
  container = ok "c1";
  start = none;
  attach = none;
  exec_id = ok "x1";
  output = record { stream = "stdout"; text = "working"; timestamp = 3 } ∷ [];
  context = some deadline_exceeded;
  context_again = some deadline_exceeded;
  inspect = ok (record { exit_code = pos 0; running = false });
  has_streams = true;
  has_notify = true;
  has_copier = false;
}

abbrev stored : World State
stored = record {
  tables = record {
    records = first ∷ [];
    owned = (λ id. some "c1");
    tracked = (λ id. true);
    canceled = [];
    calls = [];
  };
  clock = 10;
  latencies = record { elapsed = 1; fault = none } ∷ [];
}

cancel_execution-cancels_example :
    (w' : World State) × (s : ExecutionRecord) × (cancel_execution true "e1" stored ≡ (ok tt, w'))
    × (find key "e1" w'.tables.records ≡ some s)
    × (s.status ≡ cancelled)
    × (s.completed_at ≡ some (ready "e1" (elapse stored)).clock)
    × ((j : String) → "e1" ≢ j → find key j w'.tables.records ≡ find key j stored.tables.records)
    × AreCalm w'.latencies
    × EndsContext "e1" stored w'
unfolding find
cancel_execution-cancels_example = cancel_execution-cancels true first stored (refl, tt) refl refl

refused : (cancel_execution true "e2" stored).0 ≡ err execution_not_found
unfolding cancel_execution ◌>>=◌ find get_record fault_of elapsed_of later_of
refused = refl

cancel_execution-refuses_example :
    ((cancel_execution true "e2" stored).1.tables ≡ stored.tables)
    × (((find key "e2" stored.tables.records ≡ none) × (execution_not_found ≡ execution_not_found))
        ⊎ ((r : ExecutionRecord) × (find key "e2" stored.tables.records ≡ some r)
            × (is_open r.status ≡ false)
            × (execution_not_found ≡ cannot_cancel r.status)))
cancel_execution-refuses_example =
    cancel_execution-refuses true "e2" stored execution_not_found (refl, tt) refused

-- Docker does not make the container.
abbrev unmade : Answers
unmade = record late {
  container = err (outside (lit "context canceled" ∷ []));
  context = some canceled;
  context_again = some canceled;
}

cancel_execution-overwritten_example :
    (before after : List Call) × (run_create_mode unmade backup (codes "true" ∷ []) first
      ≡ before ++ after)
    × (let w₁ = carry_all before stored in
        let w₂ = (cancel_execution true "e1" w₁).1 in
        (s last : ExecutionRecord) × ((cancel_execution true "e1" w₁).0 ≡ ok tt)
        × (w₂.tables.canceled ≡ "e1" ∷ w₁.tables.canceled)
        × (find key "e1" w₂.tables.records ≡ some s)
        × (s.status ≡ cancelled)
        × (find key "e1" (carry_all after w₂).tables.records ≡ some last)
        × (last.status ≡ failed))
unfolding find
cancel_execution-overwritten_example =
    cancel_execution-overwritten unmade backup (codes "true" ∷ []) first true
      (outside (lit "context canceled" ∷ [])) stored refl (refl, tt) refl

abbrev checks : Checks
checks = record {
  Params = Unit {0};
  resolve = none;
  validate = (λ schema params. (true, []));
  build_args = (λ text schema params. ok (codes text ∷ []));
  marshal = (λ params. ok "{}");
}

abbrev accepted : Accepts checks backup tt
accepted = record {
  resolved = tt;
  errors = [];
  args = codes "true" ∷ [];
  json = "{}";
  resolves = refl;
  is_valid = refl;
  builds = refl;
  marshals = refl;
}

execute_command-locks_example :
    ((running_of "backup" stored.tables.records ≡ 0)
      × IsStarted checks backup "e2" stored (execute_command checks "e2" backup tt "bob" stored))
    ⊎ ((running_of "backup" stored.tables.records ≢ 0)
        × IsRefused checks stored (execute_command checks "e2" backup tt "bob" stored))
unfolding find
execute_command-locks_example =
    execute_command-locks checks "e2" backup tt "bob" stored accepted (refl, tt) refl refl

execute_command-twice_example :
    let (r, w₁) = execute_command checks "e2" backup tt "bob" stored in
    let (r', w₂) = execute_command checks "e3" backup tt "bob" w₁ in
    (s s' : Started) × (r ≡ ok s) × (r' ≡ ok s')
unfolding find
execute_command-twice_example =
    execute_command-twice checks "e2" backup tt "bob" stored accepted (refl, tt) refl refl "e3"
      (ground (arith, eq_iff "e2" "e3")) refl refl

-- No container has an environment.
abbrev inspect : String → Result Environment
inspect container = err (outside (lit "no such container" ∷ []))

run_create_mode-Life_example :
    Life late backup
      (codes "true" ∷ [])
      (ok "c1")
      (touching (run_create_mode late backup (codes "true" ∷ []) first))
run_create_mode-Life_example = run_create_mode-Life late backup (codes "true" ∷ []) first

run_exec_mode-leaves_example :
    (touching (run_exec_mode late backup (codes "true" ∷ []) first) ≡ [])
    × (touching (run_logs_mode late backup first) ≡ [])
run_exec_mode-leaves_example = run_exec_mode-leaves late backup (codes "true" ∷ []) first

abbrev ann : SessionData
ann = record {
  user_id = "ann";
  username = "ann";
  roles = "qa" ∷ "admin" ∷ [];
  created_at = 0;
  expires_at = 100;
}

abbrev started : ℕ × Started
started = (
  202,
  record { record_ = queued_record checks "e2" backup "ann" "{}" 11; args = codes "true" ∷ [] },
)

execute_run : (execute checks "e2" (some ann) tt (ok backup) stored).0 ≡ ok started
unfolding execute run_found or_service has_role_intersection has_role execute_command
    check_concurrency_lock count_running create_record find ◌>>=◌ fault_of elapsed_of later_of
execute_run = refl

execute-IsAllowed_example : IsAllowed checks (some ann) (ok backup) started
execute-IsAllowed_example =
    execute-IsAllowed checks "e2" (some ann) tt (ok backup) stored started execute_run
