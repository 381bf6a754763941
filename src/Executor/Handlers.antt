-- ===== src/Executor/Handlers.antt =====
-- internal/executor/handlers.go: the requests to run a command, to read an execution and to cancel one.
use kariz.Prelude.{ℕ, String, Bool, Option, none, some, [], ◌∷◌, ◌=ₛ◌, if◌then◌else◌}
use kariz.Models.Errors.{Error, api, wrapped, outside, reply, lit}
use kariz.Models.User.{SessionData}
use kariz.Models.Command.{CommandEntry}
use kariz.Models.Execution.{ExecutionRecord}
use kariz.Database.{Result, ok, err, Exec, ◌>>=◌, ◌>>◌, pure, fail, require, ◌or_reply◌}
use kariz.Auth.{replied, internal_error}
use kariz.Auth.Middleware.{unauthorized, forbidden, has_role_intersection}
use kariz.Executor.Requests.{State, Checks, Started, execute_command, get_record, cancel_execution}

unfoldable pub code_status : String → ℕ
code_status code =
    if code =ₛ "not_found"
    then 404
    else if code =ₛ "conflict"
    then 409
    else if code =ₛ "validation_error"
    then 400
    else if code =ₛ "forbidden"
    then 403
    else 500

-- `handleServiceError`.
unfoldable pub service_reply : Error → Error
service_reply (api e) = reply (code_status e.code) e
service_reply (wrapped context e) = internal_error "an unexpected error occurred"
service_reply (outside text) = internal_error "an unexpected error occurred"
service_reply (reply status e) = internal_error "an unexpected error occurred"

abbrev pub service_answer : {A : Type 0} → Result A → Result A
service_answer (ok a) = ok a
service_answer (err e) = err (service_reply e)

-- `if err != nil { handleServiceError(c, err); return }`.
unfoldable pub or_service : {A : Type 0} → Exec State A → Exec State A
or_service m w = let r = m w in (service_answer r.0, r.1)

abbrev pub execution_missing : Error
execution_missing = replied 404 "not_found" (lit "execution not found" ∷ [])

module _ (checks : Checks) where
  -- What `GetCommand` of the catalog answered is given, as are the parameters of the body, which are empty if it
  -- does not bind. The answer is 202 with the stored record, whose run has begun.
  unfoldable pub run_found :
      String → SessionData → checks.Params → Result CommandEntry → Exec State (ℕ × Started)
  run_found id session params (err e) = fail (service_reply e)
  run_found id session params (ok cmd) =
      if has_role_intersection session.roles cmd.allowed_roles
      then (or_service (execute_command checks id cmd params session.user_id) >>= λ started.
          pure (202, started))
      else fail forbidden

  unfoldable pub execute :
      String → Option SessionData → checks.Params → Result CommandEntry → Exec State (ℕ × Started)
  execute id none params found = fail (unauthorized "authentication required")
  execute id (some session) params found = run_found id session params found

unfoldable pub get_execution : Option SessionData → String → Exec State (ℕ × ExecutionRecord)
get_execution none id = fail (unauthorized "authentication required")
get_execution (some session) id = do
  found ← get_record id or_reply internal_error "failed to get execution"
  r ← require execution_missing found
  pure (200, r)

-- `has_streams` tells whether the service has a stream manager.
unfoldable pub cancel : Bool → Option SessionData → String → Exec State ℕ
cancel has_streams none id = fail (unauthorized "authentication required")
cancel has_streams (some session) id = or_service (cancel_execution has_streams id) >> pure 200
