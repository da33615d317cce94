-- ===== src/Store/Dispatch.antt =====
-- Choosing the next task of a build option, and marking it.
pub mod Choosing
pub mod Marking
use assemblage.Prelude.{
  ℕ, ℤ, pos, Bool, true, false, not, ◌&&◌, ◌==◌, nat_eq, list_eq, option_eq, if◌then◌else◌, List,
  [], ◌∷◌, Option, none, some, Text, codes, length,
}
use assemblage.Enums.{BuildStatus, CloneStatus, build_status_eq, clone_status_eq}
use assemblage.Blocklist.{Blocklist, like_patterns}
use assemblage.Db.Models.{Db, BuildOpt, RepoDo, Status}
use assemblage.Db.Session.{Action, Result, ok, session_scope}
use assemblage.Db.Query.{where_, exists, update, first}

pub record DispatchCandidate : Type 0 where
  pub task_id : ℕ
  pub opt_id : ℕ
  pub repo_id : ℕ
  pub name : Text
  pub url : Text
  pub updated_at : Text
  pub build_system : Text
  pub compiler_flag : Text

-- The clone is not started, the build neither, and the row is of this option.
unfoldable pub is_pending : ℕ → Status → Bool
is_pending opt_id s =
    s.clone_status == CloneStatus.not_started
    && s.build_status == BuildStatus.init
    && s.build_opt_id == some opt_id

-- `buildopt.compiler_flag or ""`
abbrev pub or_empty : Option Text → Text
or_empty none = codes ""
or_empty (some t) = t

-- What is not in the source: `ilike value pattern` is the database's `ILIKE … ESCAPE '\'`, and
-- `strftime` prints a date for the message.
module _ (ilike : Text → Text → Bool) where
  -- `_not_blocked`: no condition at all when there is no list or it is empty.
  unfoldable pub not_blocked : Option Blocklist → Option (RepoDo → Bool)
  not_blocked none = none
  not_blocked (some b) = elim (like_patterns b) [
    | [] ↦ none
    | p ∷ ps ↦ some (λ r. not (exists (ilike r.url) (p ∷ ps)))
  ]

  -- The join with the repository's row, where there is a condition on it.
  joined : List RepoDo → Option (RepoDo → Bool) → Status → Bool
  joined repos none s = true
  joined repos (some allowed) s = exists (λ r. r.id == s.repo_id && allowed r) repos

  unfoldable pub dispatchable : Option Blocklist → ℕ → Db → List Status
  unfolding joined is_pending where_
  dispatchable blocklist opt_id db =
      where_ (λ s. is_pending opt_id s && joined db.repos (not_blocked blocklist) s) db.statuses

  unfoldable pub count_pending : Option Blocklist → ℕ → Action ℕ
  count_pending blocklist opt_id =
      session_scope (λ db. (ok (length (dispatchable blocklist opt_id db)), db))

  -- session.get, by the primary key.
  unfoldable pub get_repo : ℕ → List RepoDo → Option RepoDo
  get_repo id repos = first 0 (where_ (λ (r : RepoDo). r.id == id) repos)

  unfoldable pub get_opt : Option ℕ → List BuildOpt → Option BuildOpt
  get_opt none opts = none
  get_opt (some id) opts = first 0 (where_ (λ (o : BuildOpt). o.id == id) opts)

  module _ (strftime : Text → Text) where
    candidate : Status → Option RepoDo → Option BuildOpt → Option DispatchCandidate
    candidate s none o = none
    candidate s (some r) none = none
    candidate s (some r) (some o) = some (record {
      task_id = s.id;
      opt_id = o.id;
      repo_id = r.id;
      name = r.name;
      url = r.url;
      updated_at = strftime r.updated_at;
      build_system = r.build_system;
      compiler_flag = or_empty o.compiler_flag;
    })

    pub next_body : ℕ → Option Blocklist → ℕ → Db → Result (Option DispatchCandidate) × Db
    unfolding candidate
    next_body row blocklist opt_id db = elim (first row (dispatchable blocklist opt_id db)) [
      | none ↦ (ok none, db)
      | some s ↦
          (ok (candidate s (get_repo s.repo_id db.repos) (get_opt s.build_opt_id db.opts)), db)
    ]

    unfoldable pub next_dispatchable : ℕ → Option Blocklist → ℕ → Action (Option DispatchCandidate)
    unfolding next_body
    next_dispatchable row blocklist opt_id = session_scope (next_body row blocklist opt_id)

processing_row : ℕ → Status → Status
processing_row now s = record s { clone_status = CloneStatus.processing; mod_timestamp = pos now }

unfoldable pub mark_clone_processing : ℕ → ℕ → Action Unit
unfolding processing_row update
mark_clone_processing now status_id = session_scope λ db. (
  ok tt,
  record db {
    statuses = update (λ (s : Status). s.id == status_id) (processing_row now) db.statuses;
  },
)
