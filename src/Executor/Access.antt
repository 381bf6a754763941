-- ===== src/Executor/Access.antt =====
-- Who may run a command (internal/executor/handlers.go, `ExecuteCommand`).
use kariz.Prelude.{ℕ, ◌≡◌, refl, String, true, Option, none, some}
use kariz.Models.User.{SessionData}
use kariz.Models.Command.{CommandEntry}
use kariz.Database.{Result, ok, err, World, Exec, fail}
use kariz.Database.Triples.{
  Post, Ensures, Ensures-pure, Ensures-fail, Ensures-bind, Ensures-if, Ensures-answer,
  Ensures-Anything, Anything,
}
use kariz.Auth.Middleware.{forbidden, has_role_intersection}
use kariz.Executor.Requests.{State, Checks, Started, execute_command}
use kariz.Executor.Handlers.{service_answer, or_service, run_found, execute}

module _ {A : Type 0} where
  service-Post :
      (F : A → Type 0) (r : Result A) (t : State)
      → Post Anything (λ a _. F a) r t
      → Post Anything (λ a _. F a) (service_answer r) t
  service-Post F (ok a) t p = p
  service-Post F (err e) t p = tt

  or_service-Ensures :
      (F : A → Type 0) (m : Exec State A)
      → Ensures Anything Anything (λ a _. F a) m
      → Ensures Anything Anything (λ a _. F a) (or_service m)
  unfolding or_service
  or_service-Ensures F m k = record {
    run = λ w p. service-Post F (m w).0 (m w).1.tables (k.run w p);
  }

module _ (checks : Checks) where
  -- The record is that of the user and of the command.
  pub record IsFor (user : String) (cmd : CommandEntry) (started : Started) : Type 0 where
    pub user_id : started.record_.user_id ≡ user
    pub command_id : started.record_.command_id ≡ cmd.id

  execute_command-IsFor :
      (id : String) (cmd : CommandEntry) (params : checks.Params) (user : String)
      → Ensures Anything Anything
          (λ started _. IsFor user cmd started)
          (execute_command checks id cmd params user)
  unfolding execute_command
  execute_command-IsFor id cmd params user = Ensures-bind _ _ (Ensures-Anything _) λ given.
      Ensures-bind _ _ (Ensures-Anything _) λ _. Ensures-bind _ _ (Ensures-Anything _) λ _.
        Ensures-bind _ _ (Ensures-Anything _) λ args. Ensures-bind _ _ (Ensures-Anything _) λ json.
          Ensures-bind _ _ (Ensures-Anything _) λ now.
            Ensures-bind _ _ (Ensures-Anything _)
              λ _. Ensures-pure _ λ t p. record { user_id = refl; command_id = refl }

  -- Who asked, for which command, and that the user may run it.
  pub record IsAllowed (session : Option SessionData) (found : Result CommandEntry)
      (answer : ℕ × Started) : Type 0 where
    pub user : SessionData
    pub cmd : CommandEntry
    pub is_session : session ≡ some user
    pub is_found : found ≡ ok cmd
    pub may_run : has_role_intersection user.roles cmd.allowed_roles ≡ true
    pub is_for : IsFor user.user_id cmd answer.1

  execute-Ensures :
      (id : String) (session : Option SessionData) (params : checks.Params)
      (found : Result CommandEntry)
      → Ensures Anything Anything
          (λ a _. IsAllowed session found a)
          (execute checks id session params found)
  unfolding execute run_found
  execute-Ensures id none params found = Ensures-fail _ λ t p. tt
  execute-Ensures id (some user) params (err e) = Ensures-fail _ λ t p. tt
  execute-Ensures id (some user) params (ok cmd) =
      Ensures-if (has_role_intersection user.roles cmd.allowed_roles) _ (fail forbidden)
        (λ may_run.
          Ensures-bind _ _
            (or_service-Ensures (IsFor user.user_id cmd) _
              (execute_command-IsFor id cmd params user.user_id))
            λ started. Ensures-pure _ λ t is_for. record {
              user = user;
              cmd = cmd;
              is_session = refl;
              is_found = refl;
              may_run = may_run;
              is_for = is_for;
            })
        λ e. Ensures-fail _ λ t p. tt

  -- A request to run a command is answered with a record only if it has a session, the catalog found the command, and the
  -- session's roles meet those of the command; the record names the session's user and the command.
  pub execute-IsAllowed :
      (id : String) (session : Option SessionData) (params : checks.Params)
      (found : Result CommandEntry) (w : World State) (answer : ℕ × Started)
      → (execute checks id session params found w).0 ≡ ok answer
      → IsAllowed session found answer
  execute-IsAllowed id session params found w answer e =
      Ensures-answer (execute checks id session params found) w answer
        (execute-Ensures id session params found) tt e
