-- ===== src/Builder/Pipeline/Finals.antt =====
-- How often a task is reported as finished.
use assemblage.Prelude.{
  ℕ, ◌+◌, ◌≡◌, ◌≢◌, refl, ap, ◌∙◌, inl, inr, Bool, true, false, ◌&&◌, if◌then◌else◌, ◌==◌, List, [],
  ◌∷◌, ◌++◌, Option, none, some, Text, take, arith, Bool-cases, List-cases,
}
use assemblage.Enums.{BuildStatus, CloneStatus, build_status_eq, clone_status_eq}
use assemblage.Messages.{BuildTask, IrStageRecord}
use assemblage.Builder.Source.{SourceResult}
use assemblage.Builder.Report.{
  Report, clone_report, build_report, binary_report, ir_report, Step, Work, publish, clone_status,
  build_processing, build_finished, build_msg, binary, ir,
}
use assemblage.Builder.Pipeline.{
  BuildContext, Built, raised, built, StoredIr, Uploads, failed, saved, ◌>>◌, raises, returns,
  report_binaries, persist_ir, persist_success, attempt, clean, run_task, finish_msg,
}

-- 1 for a build report that is not PROCESSING.
abbrev pub final : Report → ℕ
final (build_report m) = if m.status == BuildStatus.processing then 0 else 1
final _ = 0

pub finals : List Report → ℕ
finals [] = 0
finals (r ∷ rs) = final r + finals rs

finals-snoc : (rs : List Report) (r : Report) → finals (rs ++ r ∷ []) ≡ finals rs + final r
unfolding finals
finals-snoc [] r = omega arith
finals-snoc (x ∷ rs) r = omega (arith, finals-snoc rs r)

-- A step that reports no end of the build, and one that reports it exactly if it returns.
IsQuiet : Step → Type 0
IsQuiet m = (w : Work) → finals (m w).1.sent ≡ finals w.sent

IsFinal : Step → Type 0
IsFinal m = (w : Work) → finals (m w).1.sent ≡ finals w.sent + (if (m w).0 then 1 else 0)

publish-finals :
    (r : Report) (w : Work)
    → finals (publish r w).1.sent ≡ finals w.sent + (if (publish r w).0 then final r else 0)
unfolding publish
publish-finals r w = elim (List-cases w.confirms) [
  | inl e ↦ rw (e, publish) (finals-snoc w.sent r)
  | inr (true, bs, e) ↦ rw (e, publish) (finals-snoc w.sent r)
  | inr (false, bs, e) ↦ rw (e, publish) (omega arith)
]

publish-IsQuiet : (r : Report) → final r ≡ 0 → IsQuiet (publish r)
unfolding IsQuiet
publish-IsQuiet r z w = elim (Bool-cases (publish r w).0) [
  | inl e ↦ publish-finals r w ∙ rw e (omega (arith, z))
  | inr e ↦ publish-finals r w ∙ rw e (omega arith)
]

then-IsQuiet : (m k : Step) → IsQuiet m → IsQuiet k → IsQuiet (m >> k)
unfolding IsQuiet
then-IsQuiet m k h g w = bound (m w) (h w)
  where
    bound :
        (r : Bool × Work)
        → finals r.1.sent ≡ finals w.sent
        → finals (elim r.0 as (λ _. Bool × Work) [ true ↦ k r.1 | false ↦ (false, r.1) ]).1.sent
          ≡ finals w.sent
    bound (true, w') e = g w' ∙ e
    bound (false, w') e = e

then-IsFinal : (m k : Step) → IsQuiet m → IsFinal k → IsFinal (m >> k)
unfolding IsQuiet IsFinal
then-IsFinal m k h g w = bound (m w) (h w)
  where
    bound :
        (r : Bool × Work)
        → finals r.1.sent ≡ finals w.sent
        → let out = (elim r.0 as (λ _. Bool × Work) [ true ↦ k r.1 | false ↦ (false, r.1) ]) in
          finals out.1.sent ≡ finals w.sent + (if out.0 then 1 else 0)
    bound (true, w') e = g w' ∙ ap (λ n. n + (if (k w').0 then 1 else 0)) e
    bound (false, w') e = omega (arith, e)

report_binaries-IsQuiet :
    (task_id : ℕ) (files : List Text) → IsQuiet (report_binaries task_id files)
unfolding report_binaries binary
report_binaries-IsQuiet task_id [] = unfold IsQuiet in λ w. refl
report_binaries-IsQuiet task_id (f ∷ files) =
    then-IsQuiet (binary task_id f) (report_binaries task_id files)
      (publish-IsQuiet (binary_report _) refl) (report_binaries-IsQuiet task_id files)

persist_ir-IsQuiet : (task_id : ℕ) (stored : Option StoredIr) → IsQuiet (persist_ir task_id stored)
unfolding persist_ir IsQuiet
persist_ir-IsQuiet task_id none w = refl
persist_ir-IsQuiet task_id (some i) w = ir_quiet i.stages
  where
    ir_quiet :
        (stages : List IrStageRecord)
        → finals (ir task_id i.scope i.toolchain i.codegen_backend stages w).1.sent ≡ finals w.sent
    ir_quiet [] = unfold ir in refl
    ir_quiet (s ∷ stages) = unfold ir in unfold IsQuiet in publish-IsQuiet (ir_report _) refl w

persist_success-IsQuiet : (task_id : ℕ) (u : Uploads) → IsQuiet (persist_success task_id u)
unfolding persist_success
persist_success-IsQuiet task_id failed = unfold IsQuiet in λ w. refl
persist_success-IsQuiet task_id (saved files stored manifest) =
    then-IsQuiet (report_binaries task_id files >> persist_ir task_id stored) (λ w. (manifest, w))
      (then-IsQuiet (report_binaries task_id files) (persist_ir task_id stored)
        (report_binaries-IsQuiet task_id files) (persist_ir-IsQuiet task_id stored))
      (unfold IsQuiet in λ w. refl)

publish-IsFinal : (r : Report) → final r ≡ 1 → IsFinal (publish r)
unfolding IsFinal
publish-IsFinal r z w =
    publish-finals r w ∙ ap (λ n. finals w.sent + (if (publish r w).0 then n else 0)) z

-- The strategy never ends a build with PROCESSING.
abbrev pub IsEnd : Built → Type 0
IsEnd raised = Unit
IsEnd (built output status time) = status ≢ BuildStatus.processing

ended : BuildStatus → ℕ
ended s = if s == BuildStatus.processing then 0 else 1

not_processing : (s : BuildStatus) → s ≢ BuildStatus.processing → ended s ≡ 1
unfolding ended
not_processing s h = ground arith

started-IsQuiet :
    (ctx : BuildContext) (task : BuildTask) (source : SourceResult)
    → IsQuiet (
        clone_status ctx.opt_id task.url CloneStatus.success
          (take 5 ctx.uuid ++ source.message)
          task.task_id
        >> build_processing ctx.opt_id task.url task.task_id source.commit_hexsha)
unfolding clone_status build_processing build_msg build_status_eq
started-IsQuiet ctx task source =
    then-IsQuiet _ _ (publish-IsQuiet (clone_report _) refl) (publish-IsQuiet (build_report _) refl)

persist-IsQuiet :
    (b : Bool) (task_id : ℕ) (u : Uploads)
    → IsQuiet (if b then persist_success task_id u else returns)
persist-IsQuiet true task_id u = persist_success-IsQuiet task_id u
persist-IsQuiet false task_id u = unfold IsQuiet in λ w. refl

attempt-IsFinal :
    (ctx : BuildContext) (task : BuildTask) (source : SourceResult) (b : Built) (u : Uploads)
    → IsEnd b
    → IsFinal (attempt ctx task source b u)
unfolding attempt
attempt-IsFinal ctx task source raised u h =
    then-IsFinal _ raises (started-IsQuiet ctx task source) (unfold IsFinal in λ w. omega arith)
attempt-IsFinal ctx task source (built output status time) u h =
    then-IsFinal _
      (build_finished ctx.opt_id task.url task.task_id status time source.commit_hexsha
        (finish_msg status output))
      (then-IsQuiet _
        (if status == BuildStatus.success then persist_success task.task_id u else returns)
        (started-IsQuiet ctx task source)
        (persist-IsQuiet (status == BuildStatus.success) task.task_id u))
      (unfold build_finished build_msg ended in
        publish-IsFinal (build_report _) (not_processing status h))

clean-finals :
    (ctx : BuildContext) (r : Bool × Work) (n : ℕ)
    → finals r.1.sent ≡ n + (if r.0 then 1 else 0)
    → finals (clean ctx r).1.sent ≡ n + (if (clean ctx r).0 then 1 else 0)
unfolding clean
clean-finals ctx (fine, w) n h = elim (Bool-cases ctx.s3_enabled) [
  | inl e ↦ rw (e, clean) h
  | inr e ↦ rw (e, clean) h
]

-- A task that returns after a successful clone has reported the end of its build exactly once. One
-- whose clone failed, or that raises anywhere (in the strategy, an upload or a report that the
-- broker does not confirm), has not reported an end. The build does not end with PROCESSING.
pub run_task-finals :
    (ctx : BuildContext) (task : BuildTask) (source : SourceResult) (b : Built) (u : Uploads)
    (w : Work)
    → IsEnd b
    → finals (run_task ctx task source b u w).1.sent
      ≡ finals w.sent
        + (if source.status == CloneStatus.success && (run_task ctx task source b u w).0
            then 1
            else 0)
unfolding run_task clone_status
run_task-finals ctx task source b u w h = elim (Bool-cases (source.status == CloneStatus.success)) [
  | inl e ↦
      rw (e, run_task)
        (clean-finals ctx (attempt ctx task source b u w) (finals w.sent)
          (unfold IsFinal in attempt-IsFinal ctx task source b u h w))
  | inr e ↦ rw (e, run_task) (omega (arith, clone_quiet))
]
  where
    clone_quiet :
        finals
          (clone_status ctx.opt_id task.url source.status
            (take 5 ctx.uuid ++ source.message)
            task.task_id
            w).1.sent
        ≡ finals w.sent
    clone_quiet = unfold IsQuiet in publish-IsQuiet (clone_report _) refl w
