-- ===== src/Messages.antt =====
-- backend/assemblage/messages.py: the typed messages between the workers.
use assemblage.Prelude.{ℕ, ℤ, Text, Bool, Option, none, some, List}
use assemblage.Enums.{
  BuildStatus, CloneStatus, IrStage, IrScope, ScraperMsgType, ScraperOutputPolicy,
}
use assemblage.Mq.Topology.{build_opt_queue}

-- One scraped repository.
pub record RepoRecord : Type 0 where
  pub name : Text
  pub url : Text
  pub language : Text
  pub owner_id : ℕ
  pub description : Text
  pub created_at : Text
  pub updated_at : Text
  pub size : ℕ
  pub build_system : Text
  pub branch : Text
  pub commit_hexsha : Option Text
  pub license : Option Text

pub record CloneStatusMsg : Type 0 where
  pub url : Text
  pub opt_id : ℕ
  pub status : CloneStatus
  pub msg : Text
  pub task_id : ℕ

pub record BuildStatusMsg : Type 0 where
  pub url : Text
  pub opt_id : ℕ
  pub status : BuildStatus
  pub msg : Text
  pub task_id : ℕ
  pub build_time : ℤ
  pub commit_hexsha : Text

pub record BinaryRecordMsg : Type 0 where
  pub task_id : ℕ
  pub file_name : Text

pub record IrStageRecord : Type 0 where
  pub stage : IrStage
  pub s3_key : Text
  pub file_count : ℕ
  pub crate_count : ℕ
  pub raw_bytes : ℕ
  pub stored_bytes : ℕ

pub record IrRecordMsg : Type 0 where
  pub task_id : ℕ
  pub scope : IrScope
  pub toolchain : Text
  pub codegen_backend : Text
  pub stages : List IrStageRecord

pub record BuilderRegistration : Type 0 where
  pub name : Text
  pub uuid : Text
  pub compiler : Text
  pub library : Text
  pub language : Text
  pub platform : Text
  pub compiler_flag : Text
  pub build_command : Text
  pub build_system : Text
  pub codegen_backend : Text
  pub build_mode : Text

pub record BuilderRegistered : Type 0 where
  pub build_opt_id : ℕ
  pub build_opt_queue_name : Option Text

-- The validator `_default_queue`: a reply names the queue of its build option if it names none.
unfoldable pub default_queue : BuilderRegistered → BuilderRegistered
default_queue m = elim m.build_opt_queue_name [
  | none ↦ record m { build_opt_queue_name = some (build_opt_queue m.build_opt_id).name }
  | some q ↦ m
]

pub record ScraperControlRequest : Type 0 where
  pub message_type : ScraperMsgType
  pub start_time : ℕ
  pub end_time : ℕ

pub record ScraperControlReply : Type 0 where
  pub message_type : ScraperMsgType
  pub start_time : Option ℕ
  pub end_time : Option ℕ
  pub policy : Option ScraperOutputPolicy
  pub request_amount : ℤ
  pub specific_recipient : Bool
  pub qualifiers : Option (List Text)

pub record BuildTask : Type 0 where
  pub name : Text
  pub url : Text
  pub task_id : ℕ
  pub opt_id : ℕ
  pub repo_id : ℕ
  pub updated_at : Text
  pub build_system : Text
  pub msg_time : ℕ
  pub commit_hexsha : Text
  pub compiler_flag : Text
