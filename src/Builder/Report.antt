-- ===== src/Builder/Report.antt =====
-- `BuildReporter` of backend/assemblage/builder/report.py. A report is published or raises.
use assemblage.Prelude.{ℕ, ℤ, pos, Bool, true, false, List, [], ◌∷◌, ◌++◌, Text, codes}
use assemblage.Str.{last_n}
use assemblage.Enums.{BuildStatus, CloneStatus, IrScope}
use assemblage.Messages.{
  CloneStatusMsg, BuildStatusMsg, BinaryRecordMsg, IrStageRecord, IrRecordMsg,
}

-- A message and the queue that it goes to.
pub data Report : Type 0 where
  clone_report : CloneStatusMsg → Report
  build_report : BuildStatusMsg → Report
  binary_report : BinaryRecordMsg → Report
  ir_report : IrRecordMsg → Report

-- What was published, whether the broker confirms each coming message (past the list it does), and
-- whether the clone's folder was deleted.
pub record Work : Type 0 where
  pub sent : List Report
  pub confirms : List Bool
  pub cleaned : Bool

-- A step returns (true) or raises (false).
abbrev pub Step : Type 0
Step = Work → Bool × Work

confirm : List Bool → Bool × List Bool
confirm [] = (true, [])
confirm (b ∷ bs) = (b, bs)

unfoldable pub publish : Report → Step
unfolding confirm
publish r w =
    let (sure, rest) = confirm w.confirms in
    elim sure [
      | true ↦ (true, record w { sent = w.sent ++ r ∷ []; confirms = rest })
      | false ↦ (false, record w { confirms = rest })
    ]

abbrev pub msg_limit : ℕ
msg_limit = 1000

module _ (opt_id : ℕ) where
  unfoldable pub clone_status : Text → CloneStatus → Text → ℕ → Step
  unfolding publish
  clone_status url status msg task_id = publish (
      clone_report (record {
        url = url;
        opt_id = opt_id;
        status = status;
        msg = last_n msg_limit msg;
        task_id = task_id;
      }))

  -- The message of `_publish_build`.
  unfoldable pub build_msg : Text → ℕ → BuildStatus → Text → ℤ → Text → BuildStatusMsg
  build_msg url task_id status msg build_time commit_hexsha = record {
    url = url;
    opt_id = opt_id;
    status = status;
    msg = last_n msg_limit msg;
    task_id = task_id;
    build_time = build_time;
    commit_hexsha = commit_hexsha;
  }

  unfoldable pub build_processing : Text → ℕ → Text → Step
  unfolding publish build_msg
  build_processing url task_id commit_hexsha = publish (
      build_report (
        build_msg url task_id BuildStatus.processing (codes "Received and building") (pos 0)
          commit_hexsha))

  unfoldable pub build_finished : Text → ℕ → BuildStatus → ℤ → Text → Text → Step
  unfolding publish build_msg
  build_finished url task_id status build_time commit_hexsha msg =
      publish (build_report (build_msg url task_id status msg build_time commit_hexsha))

unfoldable pub binary : ℕ → Text → Step
unfolding publish
binary task_id file_name =
    publish (binary_report (record { task_id = task_id; file_name = file_name }))

-- Nothing is published when there is no stage.
unfoldable pub ir : ℕ → IrScope → Text → Text → List IrStageRecord → Step
unfolding publish
ir task_id scope toolchain codegen_backend [] w = (true, w)
ir task_id scope toolchain codegen_backend (s ∷ stages) w =
    publish
      (ir_report (record {
        task_id = task_id;
        scope = scope;
        toolchain = toolchain;
        codegen_backend = codegen_backend;
        stages = s ∷ stages;
      }))
      w
