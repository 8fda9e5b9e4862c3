-- ===== src/Tasks/Models.antt =====
-- app/modules/messaging/tasks/models.py and store.py: the task record and its states. Times are
-- ticks of one clock.
use ai_platform_template.Base.{ℕ, String, Option}
use ai_platform_template.Base.Json.{Json}
use ai_platform_template.Dict.{Dict}

pub data TaskStatus : Type 0 where
  queued processing completed failed : TaskStatus

pub record TaskRecord : Type 0 where
  pub id : String
  pub type : String
  pub status : TaskStatus
  pub payload : Dict String Json
  pub expires_at : ℕ
  pub attempts : ℕ
  pub result : Option (Dict String Json)
  pub error : Option String
  pub created_at : Option ℕ
  pub updated_at : Option ℕ
  pub locked_until : Option ℕ
  pub metadata : Dict String Json
  pub principal_id : String
  pub request_id : Option String

abbrev pub max_attempts_exceeded : String
max_attempts_exceeded = "max_attempts_exceeded"

pub record TaskRef : Type 0 where
  pub id : String
  pub type : String
  pub request_id : Option String
