-- ===== src/Examples/Builder.antt =====
-- A builder at one task.
use assemblage.Prelude.{
  ◌+◌, ◌≡◌, true, false, ◌&&◌, ◌==◌, if◌then◌else◌, [], ◌∷◌, some, none, codes, pos,
}
use assemblage.Str.{last_n}
use assemblage.Enums.{CloneStatus, BuildStatus, clone_status_eq}
use assemblage.Messages.{BuildTask}
use assemblage.Coordinator.Ingest.{build_update, build_msg_limit}
use assemblage.Builder.Source.{SourceResult}
use assemblage.Builder.Report.{Work, build_msg}
use assemblage.Builder.Pipeline.{BuildContext, built, Uploads, saved, run_task}
use assemblage.Builder.Pipeline.Finals.{finals, run_task-finals}
use assemblage.Builder.Tail.{build_update-build_msg}

abbrev ctx : BuildContext
ctx = record { uuid = codes "0123456789"; opt_id = 3; s3_enabled = true }

abbrev pub task : BuildTask
task = record {
  name = codes "p";
  url = codes "https://github.com/o/p";
  task_id = 8;
  opt_id = 3;
  repo_id = 1;
  updated_at = codes "2021";
  build_system = codes "make";
  msg_time = 5;
  commit_hexsha = codes "";
  compiler_flag = codes "-O2";
}

abbrev cloned : SourceResult
cloned = record {
  status = CloneStatus.success;
  message = codes "ok";
  clone_dir = codes "/build/projects/o/p";
  commit_hexsha = codes "abc";
  restored_from_s3 = false;
  save_path = codes "builder:/build/projects/o/p";
}

abbrev begun : Work
begun = record { sent = []; confirms = []; cleaned = false }

abbrev two_files : Uploads
two_files = saved (codes "a" ∷ codes "b" ∷ []) none true

run_task-finals_example :
    finals
      (run_task ctx task cloned
        (built (codes "log") BuildStatus.success (pos 2))
        two_files
        begun).1.sent
    ≡ finals []
      + (if CloneStatus.success == CloneStatus.success
            && (run_task ctx task cloned
                (built (codes "log") BuildStatus.success (pos 2))
                two_files
                begun).0
          then 1
          else 0)
run_task-finals_example =
    run_task-finals ctx task cloned (built (codes "log") BuildStatus.success (pos 2)) two_files
      begun (λ e. cc)

build_update-build_msg_example :
    (build_update (
      build_msg 3
        (codes "u")
        8
        BuildStatus.failed
        (codes "error: it failed")
        (pos 2)
        (codes "abc"))).build_msg
    ≡ some (last_n build_msg_limit (codes "error: it failed"))
build_update-build_msg_example =
    build_update-build_msg 3 (codes "u") 8 BuildStatus.failed (codes "error: it failed") (pos 2)
      (codes "abc")
