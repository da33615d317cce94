-- ===== src/Builder/Pipeline.antt =====
-- `run_task` of backend/assemblage/builder/pipeline.py: the steps of a task and its reports. What the
-- source, the strategy and the uploads answer is an argument.
pub mod Finals
pub mod Ir
use assemblage.Prelude.{
  ℕ, ℤ, Bool, true, false, if◌then◌else◌, ◌==◌, List, [], ◌∷◌, ◌++◌, take, Option, none, some, Text,
  codes,
}
use assemblage.Enums.{BuildStatus, CloneStatus, IrScope, build_status_eq, clone_status_eq}
use assemblage.Messages.{BuildTask, IrStageRecord}
use assemblage.Builder.Source.{SourceResult}
use assemblage.Builder.Report.{
  Step, Work, clone_status, build_processing, build_finished, binary, ir,
}

-- The context's fields that decide what is reported.
pub record BuildContext : Type 0 where
  pub uuid : Text
  pub opt_id : ℕ
  pub s3_enabled : Bool

-- `prepare`, `build` and `debug_info` of the strategy raise, or the build has an output, a status
-- and a time.
pub data Built : Type 0 where
  raised : Built
  built : Text → BuildStatus → ℤ → Built

-- The IR that `_persist_ir` stored and reports; `none` where there is none or storing it failed.
pub record StoredIr : Type 0 where
  pub scope : IrScope
  pub toolchain : Text
  pub codegen_backend : Text
  pub stages : List IrStageRecord

-- What the uploads of `_persist_success` do: those of the metadata and the binaries raise, or give
-- the names of the files; then IR; then the export manifest, which may raise.
pub data Uploads : Type 0 where
  failed : Uploads
  saved : List Text → Option StoredIr → Bool → Uploads

infixl 5 ◌>>◌
-- The second step is taken if the first returns.
abbrev pub ◌>>◌ : Step → Step → Step
m >> k = λ w. let (fine, w') = m w in elim fine [ true ↦ k w' | false ↦ (false, w') ]

abbrev pub raises : Step
raises w = (false, w)

abbrev pub returns : Step
returns w = (true, w)

report_binaries : ℕ → List Text → Step
unfolding binary
report_binaries task_id [] = returns
report_binaries task_id (f ∷ files) = binary task_id f >> report_binaries task_id files

-- An exception, also one of the report, is logged.
persist_ir : ℕ → Option StoredIr → Step
unfolding ir
persist_ir task_id none w = (true, w)
persist_ir task_id (some i) w =
    (true, (ir task_id i.scope i.toolchain i.codegen_backend i.stages w).1)

persist_success : ℕ → Uploads → Step
unfolding report_binaries persist_ir
persist_success task_id failed = raises
persist_success task_id (saved files stored manifest) =
    report_binaries task_id files >> persist_ir task_id stored >> (λ w. (manifest, w))

abbrev pub finish_msg : BuildStatus → Text → Text
finish_msg status output =
    if status == BuildStatus.success then codes "Build Process Finished" else output

-- The body of the `try`.
attempt : BuildContext → BuildTask → SourceResult → Built → Uploads → Step
unfolding persist_success clone_status build_processing build_finished
attempt ctx task source raised uploads =
    clone_status ctx.opt_id task.url CloneStatus.success (take 5 ctx.uuid ++ source.message)
      task.task_id
    >> build_processing ctx.opt_id task.url task.task_id source.commit_hexsha
    >> raises
attempt ctx task source (built output status time) uploads =
    clone_status ctx.opt_id task.url CloneStatus.success (take 5 ctx.uuid ++ source.message)
      task.task_id
    >> build_processing ctx.opt_id task.url task.task_id source.commit_hexsha
    >> (if status == BuildStatus.success then persist_success task.task_id uploads else returns)
    >> build_finished ctx.opt_id task.url task.task_id status time source.commit_hexsha
        (finish_msg status output)

-- The `finally`: the folder is deleted however the body ends.
clean : BuildContext → Bool × Work → Bool × Work
clean ctx (fine, w) = (fine, if ctx.s3_enabled then record w { cleaned = true } else w)

unfoldable pub run_task : BuildContext → BuildTask → SourceResult → Built → Uploads → Step
unfolding attempt clean clone_status
run_task ctx task source b uploads w =
    if source.status == CloneStatus.success
    then clean ctx (attempt ctx task source b uploads w)
    else (clone_status ctx.opt_id task.url source.status (take 5 ctx.uuid ++ source.message)
        task.task_id w)
