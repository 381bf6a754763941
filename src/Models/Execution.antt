-- ===== src/Models/Execution.antt =====
-- internal/models/execution.go, and the event of internal/models/stream.go.
use kariz.Prelude.{ℕ, String, Bool, Option, List, Bytes, ℤ}
use kariz.Models.Errors.{Message}
use kariz.Models.Command.{ResourceLimits, VolumeMount}

pub data ExecutionStatus : Type 0 where
  queued running completed failed timed_out cancelled : ExecutionStatus

-- A piece of output; `text` is the field `Data`.
pub record OutputChunk : Type 0 where
  pub stream : String
  pub text : String
  pub timestamp : ℕ

-- What the program encodes as JSON for an event; the encoding itself is Go's `json.Marshal`.
pub data Payload : Type 0 where
  chunk_json : OutputChunk → Payload
  status_json : ExecutionStatus → Payload

pub record SseEvent : Type 0 where
  pub id : Bytes
  pub event : String
  pub payload : Payload

-- The arguments of a command are texts by their code points. The two outputs are the texts in the order in which they were written.
pub record ExecutionRecord : Type 0 where
  pub id : String
  pub command_id : String
  pub command_name : String
  pub user_id : String
  pub parameters : Option String
  pub status : ExecutionStatus
  pub exit_code : Option ℤ
  pub stdout : Message
  pub stderr : Message
  pub container_id : Option String
  pub schedule_id : Option String
  pub started_at : Option ℕ
  pub completed_at : Option ℕ
  pub created_at : ℕ

pub record ContainerConfig : Type 0 where
  pub image : String
  pub command : List Bytes
  pub volumes : List VolumeMount
  pub resource_limits : ResourceLimits

pub record ExecInspectResult : Type 0 where
  pub exit_code : ℤ
  pub running : Bool
