-- ===== src/Examples/Data.antt =====
-- One builder, one repository, one task.
use assemblage.Prelude.{
  Bool, true, false, nat_eq, list_eq, List, [], ◌∷◌, none, some, Text, codes, refl, inl, arith,
  negsuc, pos,
}
use assemblage.Enums.{PriorityStatus, CloneStatus, BuildStatus}
use assemblage.Messages.{BuilderRegistration, RepoRecord, CloneStatusMsg, BuildStatusMsg}
use assemblage.Blocklist.Like.{like}
use assemblage.Db.Models.{Db, BuildOpt, RepoDo, Status}
use assemblage.Db.Session.{World}
use assemblage.Db.Integrity.{IsConsistent}
use assemblage.Coordinator.System.{System, Event, dispatches, clone_reported, build_reported}
use assemblage.Mq.Publisher.{confirmed, lost}
use assemblage.Coordinator.Dispatcher.{Env, Dispatcher}

abbrev pub ilike : Text → Text → Bool
ilike value pattern = like pattern value

abbrev pub strftime : Text → Text
strftime t = t

abbrev pub accepts : RepoDo → Bool
accepts r = true

abbrev pub gcc_builder : BuilderRegistration
gcc_builder = record {
  name = codes "b1";
  uuid = codes "u1";
  compiler = codes "gcc";
  library = codes "";
  language = codes "c";
  platform = codes "linux";
  compiler_flag = codes "-O2";
  build_command = codes "";
  build_system = codes "make";
  codegen_backend = codes "";
  build_mode = codes "Release";
}

abbrev pub scraped_repo : RepoRecord
scraped_repo = record {
  name = codes "p";
  url = codes "https://github.com/o/p";
  language = codes "C";
  owner_id = 1;
  description = codes "";
  created_at = codes "2020";
  updated_at = codes "2021";
  size = 3;
  build_system = codes "make";
  branch = codes "main";
  commit_hexsha = none;
  license = none;
}

abbrev pub empty_db : Db
empty_db = record {
  opts = [];
  repos = [];
  statuses = [];
  binaries = [];
  ir = [];
  scrapers = [];
  next_opt = 0;
  next_repo = 0;
  next_status = 0;
  next_binary = 0;
  next_ir = 0;
  next_scraper = 0;
}

abbrev pub gcc_opt : BuildOpt
gcc_opt = record {
  id = 0;
  platform = codes "linux";
  language = codes "c";
  compiler_name = codes "gcc";
  compiler_flag = some (codes "-O2");
  build_system = some (codes "make");
  build_command = some (codes "");
  library = codes "";
  enable = true;
  compiler_version = none;
  save_assembly = none;
  toolset_version = none;
  build_type = codes "Release";
  codegen_backend = codes "";
}

abbrev pub stored_repo : RepoDo
stored_repo = record {
  id = 0;
  url = codes "https://github.com/o/p";
  owner_id = 1;
  name = codes "p";
  description = codes "";
  language = codes "C";
  created_at = codes "2020";
  fork_from = 0;
  deleted = false;
  updated_at = codes "2021";
  forked_commit_id = 0;
  branch = codes "main";
  priority = PriorityStatus.low;
  size = 3;
  build_system = codes "make";
  commit_hexsha = none;
  license = none;
}

abbrev pub task_row : Status
task_row = record {
  id = 0;
  priority = PriorityStatus.low;
  clone_status = CloneStatus.not_started;
  clone_msg = codes "";
  build_status = BuildStatus.init;
  build_msg = codes "";
  build_opt_id = some 0;
  repo_id = 0;
  mod_timestamp = negsuc 0;
  build_time = negsuc 0;
  commit_hexsha = codes "";
}

abbrev pub task_db : Db
task_db = record empty_db {
  opts = gcc_opt ∷ [];
  repos = stored_repo ∷ [];
  statuses = task_row ∷ [];
  next_opt = 1;
  next_repo = 1;
  next_status = 1;
}

abbrev pub empty_world : World
empty_world = record { db = empty_db; commits = [] }

abbrev pub task_world : World
task_world = record { db = task_db; commits = [] }

pub task_db-IsConsistent : IsConsistent task_db
task_db-IsConsistent = record {
  opt_keys = (omega arith, omega arith);
  repo_keys = (omega arith, omega arith);
  status_keys = (omega arith, omega arith);
  parents = ((inl refl, inl refl), tt);
}

pub empty_db-IsConsistent : IsConsistent empty_db
empty_db-IsConsistent = record {
  opt_keys = omega arith;
  repo_keys = omega arith;
  status_keys = omega arith;
  parents = tt;
}

abbrev pub calm : Env
calm = record {
  depth = some 0;
  row = 0;
  blocklist = none;
  answer = λ n. confirmed;
  took = λ n. false;
  amqp_error = false;
  now = 9;
}

-- Every attempt loses its connection after the broker took the message.
abbrev pub stormy : Env
stormy = record calm { answer = λ n. lost; took = λ n. true }

abbrev pub idle_dispatcher : Dispatcher
idle_dispatcher = record {
  opt_id = 0;
  dispatched = 0;
  sent = [];
  placed = [];
  signals = [];
  world = task_world;
}

abbrev pub clone_succeeded : CloneStatusMsg
clone_succeeded = record {
  url = codes "https://github.com/o/p";
  opt_id = 0;
  status = CloneStatus.success;
  msg = codes "cloned";
  task_id = 0;
}

abbrev pub build_failed : BuildStatusMsg
build_failed = record {
  url = codes "https://github.com/o/p";
  opt_id = 0;
  status = BuildStatus.failed;
  msg = codes "no rule";
  task_id = 0;
  build_time = pos 4;
  commit_hexsha = codes "abc";
}

abbrev pub build_succeeded : BuildStatusMsg
build_succeeded = record build_failed { status = BuildStatus.success }

abbrev pub started_system : System
started_system = record {
  sent = [];
  placed = [];
  signals = [];
  stats = record { successes = 0; failures = 0 };
  pending = record { timeout = 5; pending = false; requested_at = 0 };
  manager = record { started = []; launched = []; stopping = false };
  registry = [];
  world = task_world;
}

abbrev pub busy_day : List Event
busy_day =
    dispatches stormy 0
    ∷ dispatches calm 0
    ∷ clone_reported 9 clone_succeeded
    ∷ dispatches calm 0
    ∷ build_reported 9 build_failed
    ∷ dispatches calm 0
    ∷ []
