-- ===== src/Coordinator/Ingest/Keeping.antt =====
-- Every handler of backend/assemblage/coordinator/ingest.py keeps the keys and what was started.
use assemblage.Prelude.{ℕ, ◌≢◌, Bool, ◌==◌, nat_eq, List, [], ◌∷◌, map, codes, Bool-cases, inl, inr}
use assemblage.Enums.{CloneStatus, BuildStatus, build_status_eq}
use assemblage.Messages.{RepoRecord, CloneStatusMsg, BuildStatusMsg, BinaryRecordMsg, IrRecordMsg}
use assemblage.Db.Models.{RepoDo, Status}
use assemblage.Db.Session.{World, Result, ok, err, pure}
use assemblage.Mq.Consumer.{ack}
use assemblage.Store.Statuses.{update_repo_status, get_status_row_by_id, fail_sibling_statuses}
use assemblage.Store.Repos.{insert_repos, insert_binary, upsert_ir_artifacts}
use assemblage.Store.Moves.{
  Moves, Moves-refl, Moves-trans, bind-Moves, update_repo_status-Moves, fail_sibling_statuses-Moves,
  insert_repos-Moves, get_status_row_by_id-Moves, insert_binary-Moves, upsert_ir_artifacts-Moves,
}
use assemblage.Coordinator.Ingest.{
  BuildStats, insert_bundle, handle_clone_status, clone_update, handle_build_status, build_update,
  after_update, report_failure, fail_siblings, sibling_msg, handle_binary, handle_ir, ir_row,
}

pub handle_clone_status-Moves :
    (now : ℕ) (msg : CloneStatusMsg) (w : World)
    → msg.status ≢ CloneStatus.not_started
    → Moves w (handle_clone_status now msg w).1
unfolding handle_clone_status
handle_clone_status-Moves now msg w h =
    bind-Moves (update_repo_status now msg.task_id (clone_update msg)) (λ _. pure ack) w
      (update_repo_status-Moves now msg.task_id (clone_update msg) w
        (unfold clone_update in λ e. h (cc)))
      (λ _ w'. Moves-refl w')

fail_siblings-Moves : (now id : ℕ) (w : World) → Moves w (fail_siblings now id w).1
unfolding fail_siblings
fail_siblings-Moves now id w =
    bind-Moves (get_status_row_by_id id)
      (λ (row : Status). fail_sibling_statuses now row.repo_id id sibling_msg) w
      (get_status_row_by_id-Moves id w)
      (λ (row : Status) w'. fail_sibling_statuses-Moves now row.repo_id id sibling_msg w')

after_update-Moves :
    (now : ℕ) (msg : BuildStatusMsg) (stats : BuildStats) (r : Result Unit) (w : World)
    → Moves w (after_update now msg stats r w).2
unfolding after_update report_failure
after_update-Moves now msg stats (err e) w = Moves-refl w
after_update-Moves now msg stats (ok u) w = elim (Bool-cases (msg.status == BuildStatus.success)) [
  | inl e ↦ rw (e, after_update) (Moves-refl w)
  | inr e ↦ elim (Bool-cases (msg.status == BuildStatus.failed)) [
    | inl f ↦
        rw (e, f, after_update) (unfold report_failure in fail_siblings-Moves now msg.task_id w)
    | inr f ↦ rw (e, f, after_update) (Moves-refl w)
  ]
]

pub handle_build_status-Moves :
    (now : ℕ) (msg : BuildStatusMsg) (stats : BuildStats) (w : World)
    → Moves w (handle_build_status now msg stats w).2
unfolding handle_build_status
handle_build_status-Moves now msg stats w =
    let u = update_repo_status now msg.task_id (build_update msg) w in
    Moves-trans w u.1 _
      (update_repo_status-Moves now msg.task_id (build_update msg) w
        (unfold build_update in λ e. cc))
      (after_update-Moves now msg stats u.0 u.1)

pub handle_binary-Moves :
    (now : ℕ) (msg : BinaryRecordMsg) (w : World) → Moves w (handle_binary now msg w).1
unfolding handle_binary
handle_binary-Moves now msg w =
    bind-Moves (insert_binary now msg.file_name (codes "") msg.task_id) (λ _. pure ack) w
      (insert_binary-Moves now msg.file_name (codes "") msg.task_id w) (λ _ w'. Moves-refl w')

pub handle_ir-Moves : (now : ℕ) (msg : IrRecordMsg) (w : World) → Moves w (handle_ir now msg w).1
unfolding handle_ir
handle_ir-Moves now msg w =
    bind-Moves (upsert_ir_artifacts now msg.task_id (map (ir_row msg) msg.stages)) (λ _. pure ack) w
      (upsert_ir_artifacts-Moves now msg.task_id (map (ir_row msg) msg.stages) w)
      (λ _ w'. Moves-refl w')

pub insert_bundle-Moves :
    (accepts : RepoDo → Bool) (now : ℕ) (bundle : List RepoRecord) (w : World)
    → Moves w (insert_bundle accepts now bundle w).1
unfolding insert_bundle
insert_bundle-Moves accepts now [] w = Moves-refl w
insert_bundle-Moves accepts now (r ∷ bundle) w =
    Moves-trans w (insert_repos accepts now r w).1 _ (insert_repos-Moves accepts now r w)
      (insert_bundle-Moves accepts now bundle (insert_repos accepts now r w).1)
