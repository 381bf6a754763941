-- ===== src/Executor/Reports.antt =====
-- What a run of internal/executor/service.go stores, notifies and signals.
use kariz.Prelude.{Option, List}
use kariz.Models.Command.{CommandEntry}
use kariz.Models.Execution.{ExecutionStatus, ExecutionRecord}
use kariz.Executor.{Call, Answers}
use kariz.Executor.Outcome.{reports, Concludes}

module _ (a : Answers) where
  module _ (cmd : CommandEntry) where
    abbrev Ends : ExecutionRecord → Option ExecutionStatus → List Call → Type 0
    Ends r v calls = Concludes a r.id v (reports calls)
