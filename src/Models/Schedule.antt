-- ===== src/Models/Schedule.antt =====
-- internal/models/schedule.go. A time is the number of nanoseconds since Go's zero time.
use kariz.Prelude.{ℕ, String, Bool, Option, ℤ}

pub record Schedule : Type 0 where
  pub id : String
  pub command_id : String
  pub command_name : String
  pub created_by_user : String
  pub cron_expression : String
  pub interval_sec : Option ℤ
  pub parameters : Option String
  pub is_enabled : Bool
  pub next_run_at : Option ℕ
  pub last_run_at : Option ℕ
  pub created_at : ℕ
  pub updated_at : ℕ

pub record CreateScheduleInput : Type 0 where
  pub command_id : String
  pub cron_expression : String
  pub interval_sec : Option ℤ
  pub parameters : Option String

pub record UpdateScheduleInput : Type 0 where
  pub cron_expression : Option String
  pub interval_sec : Option ℤ
  pub parameters : Option (Option String)
