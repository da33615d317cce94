-- ===== src/Store/Repos.antt =====
-- Scraped repositories, produced binaries and IR tarballs.
pub mod Inserting
pub mod IrRows
use assemblage.Prelude.{
  ℕ, suc, ◌+◌, ℤ, pos, negsuc, Bool, true, false, ◌&&◌, ◌||◌, ◌==◌, nat_eq, list_eq, if◌then◌else◌,
  List, [], ◌∷◌, ◌++◌, Option, none, some, Text, codes, length,
}
use assemblage.Str.{is_infix}
use assemblage.Enums.{BuildStatus, CloneStatus, PriorityStatus}
use assemblage.Messages.{RepoRecord}
use assemblage.Db.Models.{Db, BuildOpt, RepoDo, Status, BuildDo, IrArtifactDo}
use assemblage.Db.Session.{Action, Result, ok, session_scope, pure}
use assemblage.Db.Query.{where_, exists, update}
use assemblage.Store.Options.{languages_match}

-- `RepoDO(**filtered)`: every key of a scraped repository is a column.
unfoldable pub repo_row : RepoRecord → ℕ → RepoDo
repo_row repo id = record {
  id = id;
  url = repo.url;
  owner_id = repo.owner_id;
  name = repo.name;
  description = repo.description;
  language = repo.language;
  created_at = repo.created_at;
  fork_from = 0;
  deleted = false;
  updated_at = repo.updated_at;
  forked_commit_id = 0;
  branch = repo.branch;
  priority = PriorityStatus.low;
  size = repo.size;
  build_system = repo.build_system;
  commit_hexsha = repo.commit_hexsha;
  license = repo.license;
}

or_empty : Option Text → Text
or_empty none = codes ""
or_empty (some t) = t

-- Does a new repository get a status row for this build option?
unfoldable pub covers : RepoRecord → BuildOpt → Bool
unfolding or_empty
covers repo opt =
    let opt_bs = or_empty opt.build_system in
    (is_infix repo.build_system opt_bs || opt_bs == codes "all")
    && languages_match repo.language opt.language

unfoldable pub fresh_status : ℕ → ℕ → ℕ → BuildOpt → Status
fresh_status now repo_id id opt = record {
  id = id;
  priority = PriorityStatus.low;
  clone_status = CloneStatus.not_started;
  clone_msg = codes "";
  build_status = BuildStatus.init;
  build_msg = codes "";
  build_opt_id = some opt.id;
  repo_id = repo_id;
  mod_timestamp = pos now;
  build_time = negsuc 0;
  commit_hexsha = codes "";
}

unfoldable pub fresh_statuses : ℕ → ℕ → ℕ → List BuildOpt → List Status
unfolding fresh_status
fresh_statuses now repo_id next [] = []
fresh_statuses now repo_id next (opt ∷ opts) =
    fresh_status now repo_id next opt ∷ fresh_statuses now repo_id (suc next) opts

with_repo : ℕ → RepoRecord → Db → Db
unfolding repo_row covers fresh_statuses where_
with_repo now repo db =
    let covering = where_ (covers repo) db.opts in
    record db {
      repos = db.repos ++ repo_row repo db.next_repo ∷ [];
      next_repo = suc db.next_repo;
      statuses = db.statuses ++ fresh_statuses now db.next_repo db.next_status covering;
      next_status = db.next_status + length covering;
    }

-- `accepts`: the table takes the row (its column types and lengths); the unique URL is tested here.
module _ (accepts : RepoDo → Bool) where
  unfoldable pub insert_body : ℕ → RepoRecord → Db → Result ℕ × Db
  unfolding with_repo exists
  insert_body now repo db =
      if exists (λ (r : RepoDo). r.url == repo.url) db.repos
      then (ok 0, db)
      else if accepts (repo_row repo db.next_repo)
      then (ok 1, with_repo now repo db)
      else (ok 0, db)

  unfoldable pub insert_repos : ℕ → RepoRecord → Action ℕ
  unfolding insert_body
  insert_repos now repo = session_scope (insert_body now repo)

unfoldable pub insert_binary : ℕ → Text → Text → ℕ → Action Unit
insert_binary now file_name description status_id = session_scope λ db. (
  ok tt,
  record db {
    binaries =
        db.binaries
        ++ (record {
          id = db.next_binary;
          file_name = file_name;
          description = description;
          build_date = now;
          disassembled = false;
          optimization = codes "";
          status_id = status_id;
        })
          ∷ [];
    next_binary = suc db.next_binary;
  },
)

-- The row dictionary that `upsert_ir_artifacts` takes.
pub record IrRow : Type 0 where
  pub stage : Text
  pub scope : Text
  pub s3_key : Text
  pub file_count : ℕ
  pub crate_count : ℕ
  pub raw_bytes : ℕ
  pub stored_bytes : ℕ

new_artifact : ℕ → ℕ → ℕ → IrRow → IrArtifactDo
new_artifact now id status_id r = record {
  id = id;
  status_id = status_id;
  stage = r.stage;
  scope = r.scope;
  s3_key = r.s3_key;
  file_count = r.file_count;
  crate_count = r.crate_count;
  raw_bytes = r.raw_bytes;
  stored_bytes = r.stored_bytes;
  row_created_at = now;
}

-- The unique constraint on (status_id, stage).
unfoldable pub same_artifact : ℕ → Text → IrArtifactDo → Bool
same_artifact status_id stage a = a.status_id == status_id && a.stage == stage

-- ON CONFLICT DO UPDATE: every given column but the stage.
overwrite : IrRow → IrArtifactDo → IrArtifactDo
overwrite r a = record a {
  scope = r.scope;
  s3_key = r.s3_key;
  file_count = r.file_count;
  crate_count = r.crate_count;
  raw_bytes = r.raw_bytes;
  stored_bytes = r.stored_bytes;
}

unfoldable pub upsert_row : ℕ → ℕ → IrRow → Db → Db
unfolding new_artifact overwrite same_artifact exists update
upsert_row now status_id r db =
    if exists (same_artifact status_id r.stage) db.ir
    then record db { ir = update (same_artifact status_id r.stage) (overwrite r) db.ir }
    else record db {
      ir = db.ir ++ new_artifact now db.next_ir status_id r ∷ [];
      next_ir = suc db.next_ir;
    }

unfoldable pub upsert_rows : ℕ → ℕ → List IrRow → Db → Db
unfolding upsert_row
upsert_rows now status_id [] db = db
upsert_rows now status_id (r ∷ rs) db = upsert_rows now status_id rs (upsert_row now status_id r db)

unfoldable pub upsert_ir_artifacts : ℕ → ℕ → List IrRow → Action ℕ
upsert_ir_artifacts now status_id [] = pure 0
upsert_ir_artifacts now status_id (r ∷ rs) =
    session_scope λ db. (ok (length (r ∷ rs)), upsert_rows now status_id (r ∷ rs) db)
