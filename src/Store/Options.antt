-- ===== src/Store/Options.antt =====
-- Build options: `languages_match` and `register_build_opt`.
pub mod Registering
pub mod Identity
use assemblage.Prelude.{
  ℕ, suc, ◌+◌, ℤ, pos, negsuc, Bool, true, false, ◌&&◌, ◌||◌, ◌==◌, nat_eq, list_eq, option_eq,
  contains, if◌then◌else◌, List, [], ◌∷◌, ◌++◌, map, Option, none, some, Text, codes, length,
}
use assemblage.Str.{lower, is_infix}
use assemblage.Enums.{BuildStatus, CloneStatus, PriorityStatus}
use assemblage.Messages.{BuilderRegistration}
use assemblage.Db.Models.{Db, BuildOpt, RepoDo, Status}
use assemblage.Db.Session.{Action, Result, ok, session_scope}
use assemblage.Db.Query.{where_, update, first}

-- _C_FAMILY
abbrev c_family : List Text
c_family = codes "c" ∷ codes "cpp" ∷ codes "c++" ∷ []

canon : Text → Text
canon language = if contains c_family (lower language) then codes "c++" else lower language

unfoldable pub languages_match : Text → Text → Bool
unfolding canon
languages_match repo_language opt_language = canon repo_language == canon opt_language

-- The nine columns that identify a build option.
unfoldable pub same_option : BuilderRegistration → BuildOpt → Bool
same_option reg o =
    o.platform == reg.platform
    && o.language == reg.language
    && o.compiler_name == reg.compiler
    && o.compiler_flag == some reg.compiler_flag
    && o.build_system == some reg.build_system
    && o.build_command == some reg.build_command
    && o.library == reg.library
    && o.build_type == reg.build_mode
    && o.codegen_backend == reg.codegen_backend

unfoldable pub new_option : BuilderRegistration → ℕ → BuildOpt
new_option reg id = record {
  id = id;
  platform = reg.platform;
  language = reg.language;
  compiler_name = reg.compiler;
  compiler_flag = some reg.compiler_flag;
  build_system = some reg.build_system;
  build_command = some reg.build_command;
  library = reg.library;
  enable = true;
  compiler_version = none;
  save_assembly = none;
  toolset_version = none;
  build_type = reg.build_mode;
  codegen_backend = reg.codegen_backend;
}

-- `Status(repo_id=…, build_opt_id=…)`: the defaults of the other columns.
unfoldable pub default_status : ℕ → ℕ → ℕ → Status
default_status id repo_id opt_id = record {
  id = id;
  priority = PriorityStatus.low;
  clone_status = CloneStatus.not_started;
  clone_msg = codes "";
  build_status = BuildStatus.init;
  build_msg = codes "";
  build_opt_id = some opt_id;
  repo_id = repo_id;
  mod_timestamp = negsuc 0;
  build_time = negsuc 0;
  commit_hexsha = codes "";
}

-- Does a new build option get a status row for this repository?
unfoldable pub back_fills : BuilderRegistration → RepoDo → Bool
back_fills reg repo =
    (is_infix reg.build_system repo.build_system || reg.build_system == codes "all")
    && languages_match repo.language reg.language

-- One row for each repository, with the keys from `next` on.
unfoldable pub status_rows : ℕ → ℕ → List RepoDo → List Status
unfolding default_status
status_rows opt_id next [] = []
status_rows opt_id next (repo ∷ repos) =
    default_status next repo.id opt_id ∷ status_rows opt_id (suc next) repos

create_option : BuilderRegistration → Db → Db
unfolding new_option status_rows back_fills where_
create_option reg db =
    let covered = where_ (back_fills reg) db.repos in
    record db {
      opts = db.opts ++ new_option reg db.next_opt ∷ [];
      next_opt = suc db.next_opt;
      statuses = db.statuses ++ status_rows db.next_opt db.next_status covered;
      next_status = db.next_status + length covered;
    }

re_enable : ℕ → Db → Db
unfolding update
re_enable id db = record db {
  opts = update (λ (o : BuildOpt). o.id == id) (λ o. record o { enable = true }) db.opts;
}

register_body : ℕ → BuilderRegistration → Db → Result ℕ × Db
unfolding create_option re_enable where_ same_option
register_body row reg db = elim (first row (where_ (same_option reg) db.opts)) [
  | some existing ↦ (ok existing.id, re_enable existing.id db)
  | none ↦ (ok db.next_opt, create_option reg db)
]

unfoldable pub register_build_opt : ℕ → BuilderRegistration → Action ℕ
unfolding register_body
register_build_opt row reg = session_scope (register_body row reg)
