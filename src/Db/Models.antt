-- ===== src/Db/Models.antt =====
-- backend/assemblage/db/models.py: one record for each table, and the database that holds them.
-- A primary key is a number that the database assigns; a
-- date that arrives with a message is the text that it is, one that is taken here a number.
use assemblage.Prelude.{ℕ, ℤ, Text, Bool, Option, List}
use assemblage.Enums.{BuildStatus, CloneStatus, PriorityStatus}

pub record BuildOpt : Type 0 where
  pub id : ℕ
  pub platform : Text
  pub language : Text
  pub compiler_name : Text
  pub compiler_flag : Option Text
  pub build_system : Option Text
  pub build_command : Option Text
  pub library : Text
  pub enable : Bool
  pub compiler_version : Option Text
  pub save_assembly : Option Bool
  pub toolset_version : Option Text
  pub build_type : Text
  pub codegen_backend : Text

pub record Status : Type 0 where
  pub id : ℕ
  pub priority : PriorityStatus
  pub clone_status : CloneStatus
  pub clone_msg : Text
  pub build_status : BuildStatus
  pub build_msg : Text
  pub build_opt_id : Option ℕ
  pub repo_id : ℕ
  pub mod_timestamp : ℤ
  pub build_time : ℤ
  pub commit_hexsha : Text

pub record BuildDo : Type 0 where
  pub id : ℕ
  pub file_name : Text
  pub description : Text
  pub build_date : ℕ
  pub disassembled : Bool
  pub optimization : Text
  pub status_id : ℕ

pub record IrArtifactDo : Type 0 where
  pub id : ℕ
  pub status_id : ℕ
  pub stage : Text
  pub scope : Text
  pub s3_key : Text
  pub file_count : ℕ
  pub crate_count : ℕ
  pub raw_bytes : ℕ
  pub stored_bytes : ℕ
  pub row_created_at : ℕ

pub record RepoDo : Type 0 where
  pub id : ℕ
  pub url : Text
  pub owner_id : ℕ
  pub name : Text
  pub description : Text
  pub language : Text
  pub created_at : Text
  pub fork_from : ℕ
  pub deleted : Bool
  pub updated_at : Text
  pub forked_commit_id : ℕ
  pub branch : Text
  pub priority : PriorityStatus
  pub size : ℕ
  pub build_system : Text
  pub commit_hexsha : Option Text
  pub license : Option Text

pub record ScraperData : Type 0 where
  pub id : ℕ
  pub start_time : ℕ
  pub end_time : ℕ
  pub owner_uuid : Text

-- The tables, and the next key of each table whose keys are assigned.
pub record Db : Type 0 where
  pub opts : List BuildOpt
  pub repos : List RepoDo
  pub statuses : List Status
  pub binaries : List BuildDo
  pub ir : List IrArtifactDo
  pub scrapers : List ScraperData
  pub next_opt : ℕ
  pub next_repo : ℕ
  pub next_status : ℕ
  pub next_binary : ℕ
  pub next_ir : ℕ
  pub next_scraper : ℕ
