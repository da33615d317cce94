-- ===== src/Db/Integrity.antt =====
-- What the schema promises of the tables: keys assigned in order and foreign keys that refer.
use assemblage.Prelude.{ℕ, List, map, Option, none, some}
use assemblage.Db.Models.{Db, BuildOpt, RepoDo, Status}
use assemblage.Db.Query.{Has, All}
use assemblage.Db.Query.Keys.{Rising}

abbrev pub opt_ids : Db → List ℕ
opt_ids db = map (λ (o : BuildOpt). o.id) db.opts

abbrev pub repo_ids : Db → List ℕ
repo_ids db = map (λ (r : RepoDo). r.id) db.repos

abbrev pub status_ids : Db → List ℕ
status_ids db = map (λ (s : Status). s.id) db.statuses

-- A foreign key that may be null.
abbrev pub Refers : Option ℕ → List ℕ → Type 0
Refers none ids = Unit
Refers (some id) ids = Has id ids

abbrev pub HasParents : Db → Status → Type 0
HasParents db s = Has s.repo_id (repo_ids db) × Refers s.build_opt_id (opt_ids db)

pub record IsConsistent (db : Db) : Type 0 where
  pub opt_keys : Rising 0 (opt_ids db) db.next_opt
  pub repo_keys : Rising 0 (repo_ids db) db.next_repo
  pub status_keys : Rising 0 (status_ids db) db.next_status
  pub parents : All (HasParents db) db.statuses
