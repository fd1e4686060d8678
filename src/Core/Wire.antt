-- ===== src/Core/Wire.antt =====
-- The messages of api/proto that client.py and syscall.py build and read, with the fields that they
-- set or look at.
use hivekernel.Prelude.{ℕ, Bool, List}
use hivekernel.Prelude.Text.{Text}
use hivekernel.Prelude.Dict.{Dict}
use hivekernel.Core.{TaskOutput}

pub record SpawnRequest : Type 0 where
  pub name : Text
  pub role : ℕ
  pub cognitive_tier : ℕ
  pub model : Text
  pub system_prompt : Text
  pub runtime_image : Text

pub record SpawnResponse : Type 0 where
  pub success : Bool
  pub error : Text
  pub child_pid : ℕ

pub record KillRequest : Type 0 where
  pub target_pid : ℕ
  pub recursive : Bool

pub record KillResponse : Type 0 where
  pub success : Bool
  pub error : Text
  pub killed_pids : List ℕ

pub record SendMessageRequest : Type 0 where
  pub to_pid : ℕ
  pub type : Text
  pub priority : ℕ
  pub payload : Text
  pub reply_to : Text

pub record SendMessageResponse : Type 0 where
  pub delivered : Bool
  pub error : Text
  pub message_id : Text

pub record StoreArtifactRequest : Type 0 where
  pub key : Text
  pub content : Text
  pub content_type : Text
  pub visibility : ℕ

pub record StoreArtifactResponse : Type 0 where
  pub success : Bool
  pub error : Text
  pub artifact_id : Text

pub record GetArtifactRequest : Type 0 where
  pub key : Text
  pub artifact_id : Text

pub record GetArtifactResponse : Type 0 where
  pub found : Bool
  pub error : Text
  pub content : Text

pub record EscalateRequest : Type 0 where
  pub issue : Text
  pub severity : ℕ
  pub auto_propagate : Bool

pub record LogRequest : Type 0 where
  pub level : ℕ
  pub message : Text
  pub fields : Dict Text

pub record ExecuteTaskRequest : Type 0 where
  pub target_pid : ℕ
  pub description : Text
  pub params : Dict Text
  pub timeout_seconds : ℕ

pub record ExecuteTaskResponse : Type 0 where
  pub success : Bool
  pub error : Text
  pub result : TaskOutput

pub record WaitChildRequest : Type 0 where
  pub target_pid : ℕ
  pub timeout_seconds : ℕ

pub record WaitChildResponse : Type 0 where
  pub success : Bool
  pub error : Text
  pub pid : ℕ
  pub exit_code : ℕ
  pub output : Text

pub record AddCronRequest : Type 0 where
  pub name : Text
  pub cron_expression : Text
  pub action : Text
  pub target_pid : ℕ
  pub execute_description : Text
  pub execute_params : Dict Text

pub record AddCronResponse : Type 0 where
  pub error : Text
  pub cron_id : Text

pub record RemoveCronResponse : Type 0 where
  pub error : Text
  pub ok : Bool

pub record CronEntry : Type 0 where
  pub id : Text
  pub name : Text
  pub cron_expression : Text
  pub action : Text
  pub target_pid : ℕ
  pub execute_description : Text
  pub execute_params : Dict Text
  pub enabled : Bool

pub record ResourceUsage : Type 0 where
  pub tokens_consumed : ℕ
  pub tokens_remaining : ℕ
  pub children_active : ℕ
  pub children_max : ℕ
  pub uptime_seconds : ℕ

pub record ResourceRequest : Type 0 where
  pub resource_type : Text
  pub amount : ℕ

pub record Grant : Type 0 where
  pub granted : Bool
  pub granted_amount : ℕ
  pub reason : Text

-- What `wait_child` returns.
pub record Exited : Type 0 where
  pub pid : ℕ
  pub exit_code : ℕ
  pub output : Text
