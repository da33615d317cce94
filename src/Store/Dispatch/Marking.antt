-- ===== src/Store/Dispatch/Marking.antt =====
-- What `mark_clone_processing` does to the rows.
use assemblage.Prelude.{
  ℕ, ◌≡◌, ◌≢◌, refl, sym, subst, ◌⊎◌, inl, inr, true, false, ◌==◌, nat_eq, if◌then◌else◌, List, [],
  ◌∷◌, arith, Bool-cases,
}
use assemblage.Enums.{CloneStatus}
use assemblage.Db.Models.{Status}
use assemblage.Db.Session.{
  World, ok, session_scope-keeps, session_scope-commits, session_scope-returns,
}
use assemblage.Db.Query.{update, All}
use assemblage.Db.Integrity.{IsConsistent}
use assemblage.Store.Integrity.{KeepsKeys, update-IsConsistent}
use assemblage.Store.Progress.{Progress, Progress-refl, Progress-update, IsStarted}
use assemblage.Store.Dispatch.{processing_row, mark_clone_processing}

processing_row-KeepsKeys : (now : ℕ) → KeepsKeys (processing_row now)
unfolding processing_row
processing_row-KeepsKeys now = record { id = λ s. refl; repo = λ s. refl; option = λ s. refl }

processing_row_started :
    (now : ℕ) (s : Status) → (processing_row now s).clone_status ≢ CloneStatus.not_started
unfolding processing_row
processing_row_started now s e = cc

pub mark_clone_processing-IsConsistent :
    (now id : ℕ) (w : World)
    → IsConsistent w.db
    → IsConsistent (mark_clone_processing now id w).1.db
unfolding mark_clone_processing
mark_clone_processing-IsConsistent now id w v =
    session_scope-keeps _ w IsConsistent
      (λ v. update-IsConsistent _ _ w.db (processing_row-KeepsKeys now) v) v

pub mark_clone_processing-Progress :
    (now id : ℕ) (w : World) → Progress w.db (mark_clone_processing now id w).1.db
unfolding mark_clone_processing
mark_clone_processing-Progress now id w =
    session_scope-keeps _ w (Progress w.db)
      (λ _.
        Progress-update _ _ w.db (processing_row-KeepsKeys now).id
          (λ s k. processing_row_started now s))
      (Progress-refl w.db)

marked_rows :
    (now id : ℕ) (ss : List Status)
    → All
        (λ s. s.id ≡ id → s.clone_status ≢ CloneStatus.not_started)
        (update (λ (s : Status). s.id == id) (processing_row now) ss)
unfolding update
marked_rows now id [] = tt
marked_rows now id (s ∷ ss) = (row (Bool-cases (s.id == id)), marked_rows now id ss)
  where
    row :
        ((s.id == id) ≡ true) ⊎ ((s.id == id) ≡ false)
        → (if s.id == id then processing_row now s else s).id ≡ id
        → (if s.id == id then processing_row now s else s).clone_status ≢ CloneStatus.not_started
    row (inl e) = rw e (λ _. processing_row_started now s)
    row (inr e) = rw e (λ q. absurd (ground (arith, q)))

-- A committed mark starts the task.
pub mark_clone_processing-IsStarted :
    (now id : ℕ) (w : World)
    → (mark_clone_processing now id w).0 ≡ ok tt
    → IsStarted id (mark_clone_processing now id w).1.db
unfolding mark_clone_processing
mark_clone_processing-IsStarted now id w h =
    let (r, e) = session_scope-commits _ w h in
    subst (IsStarted id) (sym e) (marked_rows now id w.db.statuses)

-- With every commit accepted, a mark is committed.
pub mark_clone_processing-returns :
    (now id : ℕ) (w : World) → w.commits ≡ [] → (mark_clone_processing now id w).0 ≡ ok tt
unfolding mark_clone_processing
mark_clone_processing-returns now id w h = session_scope-returns _ w h
