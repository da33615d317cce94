-- ===== src/Examples/Coordinator.antt =====
-- The coordinator at one task: dispatchers, reports, the gates and the manager.
use assemblage.Prelude.{
  ℕ, ◌+◌, ◌≡◌, refl, ◌⊎◌, inl, Bool, true, false, ◌||◌, ◌==◌, nat_eq, contains, if◌then◌else◌, [],
  ◌∷◌, length, suc,
}
use assemblage.Enums.{BuildStatus, build_status_eq}
use assemblage.Mq.Consumer.{ack}
use assemblage.Db.Session.{ok}
use assemblage.Db.Query.{All, where_}
use assemblage.Db.Integrity.{IsConsistent}
use assemblage.Store.Statuses.{is_sibling}
use assemblage.Coordinator.System.{run}
use assemblage.Coordinator.System.Once.{NoneLater, IsMarked, run-NoneLater}
use assemblage.Coordinator.Dispatcher.{dispatch_step}
use assemblage.Coordinator.Dispatcher.Steps.{dispatch_step-cases, Idles, Sends}
use assemblage.Coordinator.Ingest.{handle_build_status}
use assemblage.Coordinator.Ingest.Results.{handle_build_status_failed, Rowwise, IsFailing}
use assemblage.Coordinator.Ingest.Others.{handle_build_status_other, IsUpdated}
use assemblage.Coordinator.Pending.{Pending, claim, grants, claim-Spaced, Spaced}
use assemblage.Coordinator.Starvation.{mark, take_starving, flagged, take_starving-mark}
use assemblage.Coordinator.Manager.{Manager, IsValid, ensure_all, ensure_all-IsValid}
use assemblage.Examples.Data.{
  ilike, strftime, accepts, task_world, task_row, task_db-IsConsistent, calm, idle_dispatcher,
  build_failed, build_succeeded, started_system, busy_day,
}

-- A day of four iterations and two reports; the attempts of the first iteration lose their answers.
run-NoneLater_example :
    NoneLater (run ilike strftime accepts busy_day started_system).placed
    × IsConsistent (run ilike strftime accepts busy_day started_system).world.db
    × All
        (IsMarked (run ilike strftime accepts busy_day started_system).world)
        (run ilike strftime accepts busy_day started_system).placed
run-NoneLater_example =
    run-NoneLater ilike strftime accepts busy_day started_system
      (tt, (tt, ((λ e. cc), (tt, (tt, (tt, tt)))))) task_db-IsConsistent refl refl

dispatch_step-cases_example :
    Idles ilike strftime idle_dispatcher (dispatch_step ilike strftime calm idle_dispatcher).1
    ⊎ Sends ilike strftime calm idle_dispatcher
        (dispatch_step ilike strftime calm idle_dispatcher).0
        (dispatch_step ilike strftime calm idle_dispatcher).1
dispatch_step-cases_example = dispatch_step-cases ilike strftime calm idle_dispatcher

handle_build_status_failed_example :
    ((handle_build_status 9 build_failed started_system.stats task_world).0 ≡ ok ack)
    × Rowwise
        (IsFailing 0 build_failed)
        (task_row ∷ [])
        (handle_build_status 9 build_failed started_system.stats task_world).2.db.statuses
    × ((handle_build_status 9 build_failed started_system.stats task_world).1.failures
        ≡ suc 0 + length (where_ (is_sibling 0 0) (task_row ∷ [])))
    × ((handle_build_status 9 build_failed started_system.stats task_world).1.successes ≡ 0)
handle_build_status_failed_example =
    handle_build_status_failed 9 build_failed started_system.stats task_world task_row
      task_db-IsConsistent refl (inl refl) refl refl

handle_build_status_other_example :
    ((handle_build_status 9 build_succeeded started_system.stats task_world).0 ≡ ok ack)
    × Rowwise
        (IsUpdated build_succeeded)
        (task_row ∷ [])
        (handle_build_status 9 build_succeeded started_system.stats task_world).2.db.statuses
    × ((handle_build_status 9 build_succeeded started_system.stats task_world).1.failures ≡ 0)
    × ((handle_build_status 9 build_succeeded started_system.stats task_world).1.successes
        ≡ (if BuildStatus.success == BuildStatus.success then suc 0 else 0))
handle_build_status_other_example =
    handle_build_status_other 9 build_succeeded started_system.stats task_world refl (λ e. cc)

abbrev open_gate : Pending
open_gate = record { timeout = 5; pending = false; requested_at = 0 }

claim-Spaced_example :
    (grants open_gate (3 ∷ 4 ∷ 9 ∷ []) ≡ 3 ∷ grants (claim open_gate 3).1 (4 ∷ 9 ∷ []))
    × Spaced 5 3 (grants (claim open_gate 3).1 (4 ∷ 9 ∷ []))
claim-Spaced_example = claim-Spaced open_gate 3 (4 ∷ 9 ∷ []) refl

abbrev two : ℕ
two = 2

abbrev two_is_seven : Bool
two_is_seven = two == 7

take_starving-mark_example :
    (contains (take_starving (mark 7 ((2, true) ∷ []))).0 2
      ≡ (two_is_seven || flagged 2 ((2, true) ∷ [])))
    × (flagged 2 (take_starving (mark 7 ((2, true) ∷ []))).1 ≡ false)
take_starving-mark_example = take_starving-mark 7 2 ((2, true) ∷ [])

abbrev running : Manager
running = record { started = []; launched = []; stopping = false }

running-IsValid : IsValid running
running-IsValid = record { known = λ o h. h; once = tt }

ensure_all-IsValid_example : IsValid (ensure_all (1 ∷ 2 ∷ 1 ∷ []) running)
ensure_all-IsValid_example = ensure_all-IsValid (1 ∷ 2 ∷ 1 ∷ []) running running-IsValid
