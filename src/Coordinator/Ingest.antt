-- ===== src/Coordinator/Ingest.antt =====
-- backend/assemblage/coordinator/ingest.py: the handlers of the workers' reports.
pub mod Results
pub mod Others
pub mod Keeping
use assemblage.Prelude.{
  ℕ, suc, ◌+◌, ℤ, Bool, true, false, ◌==◌, nat_eq, if◌then◌else◌, ltb, List, [], ◌∷◌, map, Option,
  none, some, Text, codes,
}
use assemblage.Str.{last_n}
use assemblage.Enums.{BuildStatus, CloneStatus, ir_stage_name, ir_scope_name, build_status_eq}
use assemblage.Messages.{
  RepoRecord, CloneStatusMsg, BuildStatusMsg, BinaryRecordMsg, IrStageRecord, IrRecordMsg,
}
use assemblage.Mq.Consumer.{AckDecision, ack}
use assemblage.Db.Models.{RepoDo, Status}
use assemblage.Db.Session.{Action, Result, ok, err, World, pure, ◌>>=◌, ◌>>◌}
use assemblage.Store.Statuses.{
  Update, update_repo_status, get_status_row_by_id, fail_sibling_statuses,
}
use assemblage.Store.Repos.{IrRow, insert_repos, insert_binary, upsert_ir_artifacts}
use assemblage.Coordinator.Pending.{Pending, clear}

pub record BuildStats : Type 0 where
  pub successes : ℕ
  pub failures : ℕ

-- An insertion that raises is logged and saves nothing.
count_saved : Result ℕ → ℕ
count_saved (ok n) = n
count_saved (err e) = 0

module _ (accepts : RepoDo → Bool) (now : ℕ) where
  -- The loop over the bundle, with the number of saved repositories.
  unfoldable pub insert_bundle : List RepoRecord → World → ℕ × World
  unfolding count_saved
  insert_bundle [] w = (0, w)
  insert_bundle (repo ∷ repos) w =
      let (r, w') = insert_repos accepts now repo w in
      let (saved, w'') = insert_bundle repos w' in (count_saved r + saved, w'')

  unfoldable pub handle_scrape : List RepoRecord → Pending → World → AckDecision × Pending × World
  unfolding insert_bundle
  handle_scrape bundle pending w = (ack, clear pending, (insert_bundle bundle w).1)

abbrev pub clone_msg_limit : ℕ
clone_msg_limit = 200

abbrev pub build_msg_limit : ℕ
build_msg_limit = 500

clone_update : CloneStatusMsg → Update
clone_update msg = record {
  build_status = none;
  build_time = none;
  build_msg = none;
  clone_status = some msg.status;
  clone_msg = some (last_n clone_msg_limit msg.msg);
  commit_hexsha = none;
}

unfoldable pub handle_clone_status : ℕ → CloneStatusMsg → Action AckDecision
unfolding clone_update
handle_clone_status now msg = do update_repo_status now msg.task_id (clone_update msg); pure ack

unfoldable pub build_update : BuildStatusMsg → Update
build_update msg = record {
  build_status = some msg.status;
  build_time = some msg.build_time;
  build_msg = some (last_n build_msg_limit msg.msg);
  clone_status = none;
  clone_msg = none;
  commit_hexsha = some msg.commit_hexsha;
}

abbrev pub sibling_msg : Text
sibling_msg = codes "Sibling build failed"

-- On FAILED: the failure is counted before the row is read, and the siblings after they are failed.
fail_siblings : ℕ → ℕ → Action ℕ
fail_siblings now task_id = do
  row ← get_status_row_by_id task_id
  fail_sibling_statuses now row.repo_id task_id sibling_msg

count_result : BuildStats → Result ℕ → Result AckDecision × BuildStats
count_result stats (ok skipped) = (ok ack, record stats { failures = stats.failures + skipped })
count_result stats (err e) = (err e, stats)

report_failure : ℕ → ℕ → BuildStats → World → Result AckDecision × BuildStats × World
unfolding fail_siblings count_result
report_failure now task_id stats w =
    let counted = record stats { failures = suc stats.failures } in
    let (r, w') = fail_siblings now task_id w in
    let (result, stats') = count_result counted r in (result, stats', w')

after_update :
    ℕ
    → BuildStatusMsg
    → BuildStats
    → Result (Unit {0})
    → World
    → Result AckDecision × BuildStats × World
unfolding report_failure
after_update now msg stats (err e) w = (err e, stats, w)
after_update now msg stats (ok u) w =
    if msg.status == BuildStatus.success
    then (ok ack, record stats { successes = suc stats.successes }, w)
    else if msg.status == BuildStatus.failed
    then report_failure now msg.task_id stats w
    else (ok ack, stats, w)

unfoldable pub handle_build_status :
    ℕ → BuildStatusMsg → BuildStats → World → Result AckDecision × BuildStats × World
unfolding build_update after_update
handle_build_status now msg stats w =
    let (r, w') = update_repo_status now msg.task_id (build_update msg) w in
    after_update now msg stats r w'

unfoldable pub handle_binary : ℕ → BinaryRecordMsg → Action AckDecision
handle_binary now msg = do insert_binary now msg.file_name (codes "") msg.task_id; pure ack

-- The row of one stage: the database keeps the member's names.
unfoldable pub ir_row : IrRecordMsg → IrStageRecord → IrRow
ir_row msg rec = record {
  stage = ir_stage_name rec.stage;
  scope = ir_scope_name msg.scope;
  s3_key = rec.s3_key;
  file_count = rec.file_count;
  crate_count = rec.crate_count;
  raw_bytes = rec.raw_bytes;
  stored_bytes = rec.stored_bytes;
}

unfoldable pub handle_ir : ℕ → IrRecordMsg → Action AckDecision
unfolding ir_row
handle_ir now msg = do upsert_ir_artifacts now msg.task_id (map (ir_row msg) msg.stages); pure ack
