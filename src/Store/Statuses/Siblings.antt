-- ===== src/Store/Statuses/Siblings.antt =====
-- What the writes of clone and build results do to the rows.
use assemblage.Prelude.{ℕ, ◌≢◌, refl, inl, inr, ◌==◌, nat_eq, some, Text, arith, Bool-cases}
use assemblage.Enums.{CloneStatus}
use assemblage.Db.Models.{Db, Status}
use assemblage.Db.Session.{World, session_scope-keeps}
use assemblage.Db.Query.{update}
use assemblage.Db.Integrity.{IsConsistent}
use assemblage.Store.Integrity.{KeepsKeys, update-IsConsistent}
use assemblage.Store.Progress.{Progress, Progress-refl, Progress-update}
use assemblage.Store.Statuses.{
  Update, updated_row, is_nothing, update_repo_status, failed_row, fail_sibling_statuses,
}

pub updated_row-KeepsKeys : (now : ℕ) (u : Update) → KeepsKeys (updated_row now u)
unfolding updated_row
updated_row-KeepsKeys now u = record {
  id = λ s. ground arith;
  repo = λ s. ground arith;
  option = λ s. ground arith;
}

failed_row-KeepsKeys : (now : ℕ) (msg : Text) → KeepsKeys (failed_row now msg)
unfolding failed_row
failed_row-KeepsKeys now msg = record { id = λ s. refl; repo = λ s. refl; option = λ s. refl }

updated_row_started :
    (now : ℕ) (u : Update) (s : Status)
    → u.clone_status ≢ some CloneStatus.not_started
    → s.clone_status ≢ CloneStatus.not_started
    → (updated_row now u s).clone_status ≢ CloneStatus.not_started
unfolding updated_row
updated_row_started now u s h k = ground arith

update_keeps :
    (P : Db → Type 0) (now status_id : ℕ) (u : Update) (w : World)
    → (P w.db
        → P (record w.db {
          statuses = update (λ (s : Status). s.id == status_id) (updated_row now u) w.db.statuses;
        }))
    → P w.db
    → P (update_repo_status now status_id u w).1.db
unfolding update_repo_status
update_keeps P now status_id u w k h = elim (Bool-cases (is_nothing u)) [
  | inl e ↦ rw (e, update_repo_status) h
  | inr e ↦ rw (e, update_repo_status) (session_scope-keeps _ w P k h)
]

pub update_repo_status-IsConsistent :
    (now status_id : ℕ) (u : Update) (w : World)
    → IsConsistent w.db
    → IsConsistent (update_repo_status now status_id u w).1.db
update_repo_status-IsConsistent now status_id u w v =
    update_keeps IsConsistent now status_id u w
      (λ v. update-IsConsistent _ _ w.db (updated_row-KeepsKeys now u) v) v

pub update_repo_status-Progress :
    (now status_id : ℕ) (u : Update) (w : World)
    → u.clone_status ≢ some CloneStatus.not_started
    → Progress w.db (update_repo_status now status_id u w).1.db
update_repo_status-Progress now status_id u w h =
    update_keeps (Progress w.db) now status_id u w
      (λ _.
        Progress-update _ _ w.db (updated_row-KeepsKeys now u).id
          (λ s k. updated_row_started now u s h k))
      (Progress-refl w.db)

pub fail_sibling_statuses-IsConsistent :
    (now repo_id excluded : ℕ) (msg : Text) (w : World)
    → IsConsistent w.db
    → IsConsistent (fail_sibling_statuses now repo_id excluded msg w).1.db
unfolding fail_sibling_statuses
fail_sibling_statuses-IsConsistent now repo_id excluded msg w v =
    session_scope-keeps _ w IsConsistent
      (λ v. update-IsConsistent _ _ w.db (failed_row-KeepsKeys now msg) v) v

pub fail_sibling_statuses-Progress :
    (now repo_id excluded : ℕ) (msg : Text) (w : World)
    → Progress w.db (fail_sibling_statuses now repo_id excluded msg w).1.db
unfolding fail_sibling_statuses failed_row
fail_sibling_statuses-Progress now repo_id excluded msg w =
    session_scope-keeps _ w (Progress w.db) (λ _. Progress-update _ _ w.db (λ s. refl) (λ s k. k))
      (Progress-refl w.db)
