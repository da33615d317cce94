-- ===== src/Store/Statuses.antt =====
-- Clone and build results: `get_status_row_by_id`, `update_repo_status`, `fail_sibling_statuses`.
pub mod Siblings
use assemblage.Prelude.{
  ℕ, ℤ, pos, Bool, true, false, not, ◌&&◌, ◌==◌, nat_eq, list_eq, if◌then◌else◌, List, [], ◌∷◌,
  Option, none, some, Text, codes, length,
}
use assemblage.Enums.{BuildStatus, CloneStatus, build_status_eq}
use assemblage.Db.Models.{Db, Status}
use assemblage.Db.Session.{Action, Result, ok, err, value_error, session_scope, pure}
use assemblage.Db.Query.{where_, update, first}

unfoldable pub get_status_row_by_id : ℕ → Action Status
unfolding where_ first
get_status_row_by_id status_id = session_scope λ db.
    elim (first 0 (where_ (λ (s : Status). s.id == status_id) db.statuses)) [
      | none ↦ (err value_error, db)
      | some s ↦ (ok s, db)
    ]

-- The arguments of `update_repo_status`.
pub record Update : Type 0 where
  pub build_status : Option BuildStatus
  pub build_time : Option ℤ
  pub build_msg : Option Text
  pub clone_status : Option CloneStatus
  pub clone_msg : Option Text
  pub commit_hexsha : Option Text

-- `values[k] = v` where the argument is given, in the order of the source.
module _ {A : Type 0} where
  given : Option A → A → A
  given none old = old
  given (some new) old = new

with_build : Option BuildStatus → Option ℤ → Option Text → Status → Status
unfolding given
with_build none time msg s = s
with_build (some status) time msg s = record s {
  build_status = status;
  build_time = given time s.build_time;
  build_msg = given msg s.build_msg;
}

with_clone : Option CloneStatus → Option Text → Status → Status
unfolding given
with_clone none msg s = s
with_clone (some status) msg s = record s {
  clone_status = status;
  clone_msg = given msg s.clone_msg;
}

-- A sha is written only if it is not empty.
with_sha : Option Text → Status → Status
with_sha none s = s
with_sha (some []) s = s
with_sha (some (c ∷ cs)) s = record s { commit_hexsha = c ∷ cs }

unfoldable pub updated_row : ℕ → Update → Status → Status
unfolding with_build with_clone with_sha
updated_row now u s = with_sha u.commit_hexsha (
    with_clone u.clone_status u.clone_msg
      (with_build u.build_status u.build_time u.build_msg (record s { mod_timestamp = pos now })))

pub is_nothing : Update → Bool
is_nothing u = elim u.build_status [
  | some b ↦ false
  | none ↦ elim u.clone_status [ some c ↦ false | none ↦ true ]
]

unfoldable pub update_repo_status : ℕ → ℕ → Update → Action Unit
unfolding is_nothing update updated_row
update_repo_status now status_id u =
    if is_nothing u
    then pure tt
    else session_scope λ db. (
      ok tt,
      record db {
        statuses = update (λ (s : Status). s.id == status_id) (updated_row now u) db.statuses;
      },
    )

unfoldable pub is_sibling : ℕ → ℕ → Status → Bool
is_sibling repo_id excluded s =
    s.repo_id == repo_id && not (s.id == excluded) && s.build_status == BuildStatus.init

unfoldable pub failed_row : ℕ → Text → Status → Status
failed_row now msg s = record s {
  build_status = BuildStatus.failed;
  build_msg = msg;
  mod_timestamp = pos now;
}

-- The count is that of the rows that the update met.
unfoldable pub fail_sibling_statuses : ℕ → ℕ → ℕ → Text → Action ℕ
unfolding is_sibling failed_row where_ update
fail_sibling_statuses now repo_id excluded msg = session_scope λ db. (
  ok (length (where_ (is_sibling repo_id excluded) db.statuses)),
  record db { statuses = update (is_sibling repo_id excluded) (failed_row now msg) db.statuses },
)
