-- ===== src/Store/Moves.antt =====
-- What every action of the coordinator on the database has in common.
use assemblage.Prelude.{
  ℕ, ◌≡◌, ◌≢◌, refl, inl, inr, Bool, List, [], ◌∷◌, some, Text, Bool-cases, Option-cases, ◌==◌,
  nat_eq,
}
use assemblage.Enums.{CloneStatus}
use assemblage.Messages.{BuilderRegistration, RepoRecord}
use assemblage.Db.Models.{Db, RepoDo, Status, BuildDo, IrArtifactDo, ScraperData}
use assemblage.Db.Session.{
  Action, Result, ok, err, World, session_scope, session_scope-keeps, session_scope-commits_left,
  ◌>>=◌,
}
use assemblage.Db.Query.{where_, exists, first}
use assemblage.Db.Integrity.{IsConsistent}
use assemblage.Store.Progress.{Progress, Progress-refl, Progress-trans, Progress-same}
use assemblage.Store.Options.{register_build_opt}
use assemblage.Store.Options.Registering.{
  register_build_opt-IsConsistent, register_build_opt-Progress,
}
use assemblage.Store.Repos.{
  IrRow, insert_repos, insert_binary, upsert_ir_artifacts, upsert_rows, upsert_row, same_artifact,
}
use assemblage.Store.Repos.Inserting.{insert_repos-IsConsistent, insert_repos-Progress}
use assemblage.Store.Statuses.{
  Update, update_repo_status, get_status_row_by_id, fail_sibling_statuses, is_nothing,
}
use assemblage.Store.Statuses.Siblings.{
  update_repo_status-IsConsistent, update_repo_status-Progress, fail_sibling_statuses-IsConsistent,
  fail_sibling_statuses-Progress,
}
use assemblage.Store.Dispatch.{mark_clone_processing}
use assemblage.Store.Dispatch.Marking.{
  mark_clone_processing-IsConsistent, mark_clone_processing-Progress,
}

-- The keys stay consistent, what was started stays so, and commits go on being accepted.
pub record Moves (w w' : World) : Type 0 where
  pub consistent : IsConsistent w.db → IsConsistent w'.db
  pub progress : Progress w.db w'.db
  pub commits : w.commits ≡ [] → w'.commits ≡ []

pub Moves-refl : (w : World) → Moves w w
Moves-refl w = record { consistent = λ v. v; progress = Progress-refl w.db; commits = λ e. e }

pub Moves-trans : (a b c : World) → Moves a b → Moves b c → Moves a c
Moves-trans a b c p q = record {
  consistent = λ v. q.consistent (p.consistent v);
  progress = Progress-trans a.db b.db c.db p.progress q.progress;
  commits = λ e. q.commits (p.commits e);
}

pub update_repo_status-Moves :
    (now id : ℕ) (u : Update) (w : World)
    → u.clone_status ≢ some CloneStatus.not_started
    → Moves w (update_repo_status now id u w).1
unfolding update_repo_status
update_repo_status-Moves now id u w h = record {
  consistent = update_repo_status-IsConsistent now id u w;
  progress = update_repo_status-Progress now id u w h;
  commits = λ e. elim (Bool-cases (is_nothing u)) [
    | inl b ↦ rw (b, update_repo_status) e
    | inr b ↦ rw (b, update_repo_status) (session_scope-commits_left _ w e)
  ];
}

pub fail_sibling_statuses-Moves :
    (now repo_id id : ℕ) (msg : Text) (w : World)
    → Moves w (fail_sibling_statuses now repo_id id msg w).1
unfolding fail_sibling_statuses
fail_sibling_statuses-Moves now repo_id id msg w = record {
  consistent = fail_sibling_statuses-IsConsistent now repo_id id msg w;
  progress = fail_sibling_statuses-Progress now repo_id id msg w;
  commits = session_scope-commits_left _ w;
}

pub mark_clone_processing-Moves :
    (now id : ℕ) (w : World) → Moves w (mark_clone_processing now id w).1
unfolding mark_clone_processing
mark_clone_processing-Moves now id w = record {
  consistent = mark_clone_processing-IsConsistent now id w;
  progress = mark_clone_processing-Progress now id w;
  commits = session_scope-commits_left _ w;
}

pub register_build_opt-Moves :
    (row : ℕ) (reg : BuilderRegistration) (w : World) → Moves w (register_build_opt row reg w).1
unfolding register_build_opt
register_build_opt-Moves row reg w = record {
  consistent = register_build_opt-IsConsistent row reg w;
  progress = register_build_opt-Progress row reg w;
  commits = session_scope-commits_left _ w;
}

pub insert_repos-Moves :
    (accepts : RepoDo → Bool) (now : ℕ) (repo : RepoRecord) (w : World)
    → Moves w (insert_repos accepts now repo w).1
unfolding insert_repos
insert_repos-Moves accepts now repo w = record {
  consistent = insert_repos-IsConsistent accepts now repo w;
  progress = insert_repos-Progress accepts now repo w;
  commits = session_scope-commits_left _ w;
}

-- The three related tables are as they were.
pub record Keeps (db db' : Db) : Type 0 where
  pub consistent : IsConsistent db → IsConsistent db'
  pub progress : Progress db db'

pub Keeps-refl : (db : Db) → Keeps db db
Keeps-refl db = record { consistent = λ v. v; progress = Progress-refl db }

Keeps-trans : (a b c : Db) → Keeps a b → Keeps b c → Keeps a c
Keeps-trans a b c p q = record {
  consistent = λ v. q.consistent (p.consistent v);
  progress = Progress-trans a b c p.progress q.progress;
}

pub Keeps-others :
    (db : Db) (binaries : List BuildDo) (ir : List IrArtifactDo) (scrapers : List ScraperData)
    (nb ni ns : ℕ)
    → Keeps db (record db {
      binaries = binaries;
      ir = ir;
      scrapers = scrapers;
      next_binary = nb;
      next_ir = ni;
      next_scraper = ns;
    })
Keeps-others db binaries ir scrapers nb ni ns = record {
  consistent = λ v. record {
    opt_keys = v.opt_keys;
    repo_keys = v.repo_keys;
    status_keys = v.status_keys;
    parents = v.parents;
  };
  progress = Progress-same db _ refl refl;
}

pub session_scope-Moves :
    {A : Type 0} (body : Db → Result A × Db) (w : World)
    → Keeps w.db (body w.db).1
    → Moves w (session_scope body w).1
session_scope-Moves body w k = record {
  consistent = session_scope-keeps body w IsConsistent k.consistent;
  progress = session_scope-keeps body w (Progress w.db) (λ _. k.progress) (Progress-refl w.db);
  commits = session_scope-commits_left body w;
}

pub get_status_row_by_id-Moves : (id : ℕ) (w : World) → Moves w (get_status_row_by_id id w).1
unfolding get_status_row_by_id
get_status_row_by_id-Moves id w =
    session_scope-Moves _ w
      (elim (Option-cases (first 0 (where_ (λ (s : Status). s.id == id) w.db.statuses))) [
        | inl e ↦ rw e (Keeps-refl w.db)
        | inr (s, e) ↦ rw e (Keeps-refl w.db)
      ])

pub insert_binary-Moves :
    (now : ℕ) (file description : Text) (id : ℕ) (w : World)
    → Moves w (insert_binary now file description id w).1
unfolding insert_binary
insert_binary-Moves now file description id w =
    session_scope-Moves _ w
      (Keeps-others w.db _ w.db.ir w.db.scrapers _ w.db.next_ir w.db.next_scraper)

upsert_row-Keeps : (now id : ℕ) (r : IrRow) (db : Db) → Keeps db (upsert_row now id r db)
unfolding upsert_row
upsert_row-Keeps now id r db = elim (Bool-cases (exists (same_artifact id r.stage) db.ir)) [
  | inl e ↦
      rw (e, upsert_row)
        (Keeps-others db db.binaries _ db.scrapers db.next_binary db.next_ir db.next_scraper)
  | inr e ↦
      rw (e, upsert_row)
        (Keeps-others db db.binaries _ db.scrapers db.next_binary _ db.next_scraper)
]

upsert_rows-Keeps : (now id : ℕ) (rs : List IrRow) (db : Db) → Keeps db (upsert_rows now id rs db)
unfolding upsert_rows
upsert_rows-Keeps now id [] db = Keeps-refl db
upsert_rows-Keeps now id (r ∷ rs) db =
    Keeps-trans db (upsert_row now id r db) _ (upsert_row-Keeps now id r db)
      (upsert_rows-Keeps now id rs (upsert_row now id r db))

pub upsert_ir_artifacts-Moves :
    (now id : ℕ) (rs : List IrRow) (w : World) → Moves w (upsert_ir_artifacts now id rs w).1
unfolding upsert_ir_artifacts
upsert_ir_artifacts-Moves now id [] w = Moves-refl w
upsert_ir_artifacts-Moves now id (r ∷ rs) w =
    session_scope-Moves _ w (upsert_rows-Keeps now id (r ∷ rs) w.db)

pub bind-Moves :
    {A B : Type 0} (m : Action A) (f : A → Action B) (w : World)
    → Moves w (m w).1
    → ((a : A) (w' : World) → Moves w' (f a w').1)
    → Moves w ((m >>= f) w).1
bind-Moves {A = A} {B = B} m f w done next = bound (m w) done
  where
    bound :
        (r : Result A × World)
        → Moves w r.1
        → Moves w (elim r.0 as (λ _. Result B × World) [ ok a ↦ f a r.1 | err e ↦ (err e, r.1) ]).1
    bound (ok a, w') d = Moves-trans w w' _ d (next a w')
    bound (err e, w') d = d
