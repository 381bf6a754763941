-- ===== src/Models/User.antt =====
-- internal/models/user.go: users, their roles and sessions.
use kariz.Prelude.{ℕ, String, Bool, List}

abbrev pub Role : Type 0
Role = String

abbrev pub role_admin : Role
role_admin = "admin"

abbrev pub role_qa : Role
role_qa = "qa"

abbrev pub role_data : Role
role_data = "data"

abbrev pub role_operations : Role
role_operations = "operations"

pub record User : Type 0 where
  pub id : String
  pub username : String
  pub password_hash : String
  pub email : String
  pub is_active : Bool
  pub created_at : ℕ
  pub updated_at : ℕ

-- A user without the password's hash.
pub record UserProfile : Type 0 where
  pub id : String
  pub username : String
  pub email : String
  pub roles : List Role
  pub is_active : Bool

-- `session_data` is JSON.
pub record Session : Type 0 where
  pub id : String
  pub user_id : String
  pub session_token : String
  pub session_data : String
  pub expires_at : ℕ
  pub created_at : ℕ

pub record SessionData : Type 0 where
  pub user_id : String
  pub username : String
  pub roles : List Role
  pub created_at : ℕ
  pub expires_at : ℕ

pub record LoginCredentials : Type 0 where
  pub username : String
  pub password : String

-- `Success` with the user, or the words of the refusal.
pub data AuthResult : Type 0 where
  success : UserProfile → AuthResult
  refused : String → AuthResult
