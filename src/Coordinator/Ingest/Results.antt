-- ===== src/Coordinator/Ingest/Results.antt =====
-- What `handle_build_status` does to the rows, the counters and the siblings of a failed build.
use assemblage.Prelude.{
  ℕ, suc, ◌+◌, ◌≡◌, ◌≢◌, refl, sym, ap, subst, ◌∙◌, ◌⊎◌, inl, inr, Bool, ◌==◌, nat_eq, ==_eq,
  ==_refl, if◌then◌else◌, length, List, [], ◌∷◌, some, arith, Bool-cases,
}
use assemblage.Str.{last_n}
use assemblage.Enums.{BuildStatus, build_status_eq}
use assemblage.Messages.{BuildStatusMsg}
use assemblage.Mq.Consumer.{AckDecision, ack}
use assemblage.Db.Models.{Db, Status}
use assemblage.Db.Session.{World, Result, ok, session_scope_run, bind_run}
use assemblage.Db.Integrity.{IsConsistent}
use assemblage.Db.Query.{where_, update, first, Has}
use assemblage.Db.Query.Keys.{Rising-unique}
use assemblage.Db.Query.Laws.{first-where, Has-update, update-Has, length-where-update_unseen}
use assemblage.Store.Statuses.{
  updated_row, is_sibling, failed_row, update_repo_status, get_status_row_by_id,
  fail_sibling_statuses,
}
use assemblage.Store.Statuses.Siblings.{updated_row-KeepsKeys}
use assemblage.Coordinator.Ingest.{
  BuildStats, handle_build_status, build_update, after_update, report_failure, fail_siblings,
  count_result, sibling_msg, build_msg_limit,
}

-- Two tables with the same number of rows, related row by row.
abbrev pub Rowwise : (Status → Status → Type 0) → List Status → List Status → Type 0
Rowwise R [] [] = Unit
Rowwise R [] (t ∷ ts) = ⊥
Rowwise R (s ∷ ss) [] = ⊥
Rowwise R (s ∷ ss) (t ∷ ts) = R s t × Rowwise R ss ts

Rowwise-update-update :
    (R : Status → Status → Type 0) (p q : Status → Bool) (f g : Status → Status) (ss : List Status)
    → ((s : Status)
        → R s (
            if q (if p s then f s else s)
            then g (if p s then f s else s)
            else (if p s then f s else s)))
    → Rowwise R ss (update q g (update p f ss))
unfolding update
Rowwise-update-update R p q f g [] k = tt
Rowwise-update-update R p q f g (s ∷ ss) k = (k s, Rowwise-update-update R p q f g ss k)

-- The row of the message holds the failure.
abbrev pub IsReported : BuildStatusMsg → Status → Status → Type 0
IsReported msg s t =
    (s.id ≡ msg.task_id)
    × (t.build_status ≡ BuildStatus.failed)
    × (t.build_msg ≡ last_n build_msg_limit msg.msg)
    × (t.build_time ≡ msg.build_time)
    × (t.clone_status ≡ s.clone_status)

-- A row of the same repository that was still in INIT is failed with it.
abbrev pub IsSkipped : ℕ → BuildStatusMsg → Status → Status → Type 0
IsSkipped repo msg s t =
    (s.id ≢ msg.task_id)
    × (s.repo_id ≡ repo)
    × (s.build_status ≡ BuildStatus.init)
    × (t.build_status ≡ BuildStatus.failed)
    × (t.build_msg ≡ sibling_msg)
    × (t.clone_status ≡ s.clone_status)

-- Any other row is as it was.
abbrev pub IsUntouched : ℕ → BuildStatusMsg → Status → Status → Type 0
IsUntouched repo msg s t =
    (s.id ≢ msg.task_id) × ((s.repo_id ≢ repo) ⊎ (s.build_status ≢ BuildStatus.init)) × (t ≡ s)

abbrev pub IsFailing : ℕ → BuildStatusMsg → Status → Status → Type 0
IsFailing repo msg s t = IsReported msg s t ⊎ IsSkipped repo msg s t ⊎ IsUntouched repo msg s t

IsFailing-row :
    (now repo : ℕ) (msg : BuildStatusMsg) (s : Status)
    → msg.status ≡ BuildStatus.failed
    → let new = (if s.id == msg.task_id then updated_row now (build_update msg) s else s) in
      IsFailing repo msg s
        (if is_sibling repo msg.task_id new then failed_row now sibling_msg new else new)
unfolding is_sibling failed_row updated_row build_update
IsFailing-row now repo msg s h = elim (Bool-cases (s.id == msg.task_id)) [
  | inl e ↦
      inl (==_eq _ _ e, ground (arith, h), ground (arith, h), ground (arith, h), ground (arith, h))
  | inr e ↦ elim (Bool-cases (s.repo_id == repo)) [
    | inr r ↦ inr (inr (ground arith, inl (ground arith), ground arith))
    | inl r ↦ elim (Bool-cases (s.build_status == BuildStatus.init)) [
      | inl b ↦
          inr
            (inl (ground arith, ==_eq _ _ r, ==_eq _ _ b, ground arith, ground arith, ground arith))
      | inr b ↦ inr (inr (ground arith, inr (ground arith), ground arith))
    ]
  ]
]

-- The tables after the update of the reported row.
unfoldable pub reported : ℕ → BuildStatusMsg → Db → Db
reported now msg db = record db {
  statuses =
      update (λ (s : Status). s.id == msg.task_id) (updated_row now (build_update msg)) db.statuses;
}

pub reported_run :
    (now : ℕ) (msg : BuildStatusMsg) (w : World)
    → w.commits ≡ []
    → update_repo_status now msg.task_id (build_update msg) w
      ≡ (ok tt, record { db = reported now msg w.db; commits = [] })
unfolding update_repo_status build_update reported
reported_run now msg w c = session_scope_run _ w refl c

-- The row that the handler reads back, of the reported key.
read_back :
    (now : ℕ) (msg : BuildStatusMsg) (db : Db) (s : Status)
    → IsConsistent db
    → Has s db.statuses
    → s.id ≡ msg.task_id
    → (t : Status) × (first 0
          (where_ (λ (s : Status). s.id == msg.task_id) (reported now msg db).statuses)
        ≡ some t)
      × (t.repo_id ≡ s.repo_id)
unfolding reported
read_back now msg db s v m e =
    let f = updated_row now (build_update msg) in
    let p = λ (s : Status). s.id == msg.task_id in
    let (t, q, i, key) =
      first-where 0 p (f s) (update p f db.statuses)
        (Has-update p f s db.statuses m (rw e (==_refl msg.task_id)))
        (ap (λ k. k == msg.task_id) ((updated_row-KeepsKeys now (build_update msg)).id s ∙ e)
          ∙ ==_refl msg.task_id) in
    let (s0, j, from) = update-Has p f t db.statuses i in
    let keys = updated_row-KeepsKeys now (build_update msg) in
    let task : t.id ≡ msg.task_id = ==_eq _ _ key in
    let same : (s0.id ≡ s.id) × (t.repo_id ≡ s0.repo_id) = elim from [
      | inl r ↦ (ap (λ (s : Status). s.id) (sym r) ∙ task ∙ sym e, ap (λ (s : Status). s.repo_id) r)
      | inr r ↦ (
        sym (ap (λ (s : Status). s.id) r ∙ keys.id s0) ∙ task ∙ sym e,
        ap (λ (s : Status). s.repo_id) r ∙ keys.repo s0,
      )
    ] in
    (
      t,
      q,
      same.1
          ∙ ap (λ (s : Status). s.repo_id)
              (Rising-unique (λ (s : Status). s.id) 0 db.next_status db.statuses s0 s v.status_keys
                j m same.0),
    )

-- What a failure leaves: the rows, and the number of siblings that were failed.
failed_db : ℕ → ℕ → BuildStatusMsg → Db → Db
failed_db now repo msg db = record (reported now msg db) {
  statuses =
      update (is_sibling repo msg.task_id) (failed_row now sibling_msg)
        (reported now msg db).statuses;
}

siblings : ℕ → BuildStatusMsg → Db → ℕ
siblings repo msg db = length (where_ (is_sibling repo msg.task_id) db.statuses)

get_row_run :
    (id : ℕ) (db : Db) (t : Status)
    → first 0 (where_ (λ (s : Status). s.id == id) db.statuses) ≡ some t
    → get_status_row_by_id id (record { db = db; commits = [] })
      ≡ (ok t, record { db = db; commits = [] })
unfolding get_status_row_by_id
get_row_run id db t e = session_scope_run _ (record { db = db; commits = [] }) (rw e refl) refl

fail_run :
    (now repo : ℕ) (msg : BuildStatusMsg) (db : Db)
    → fail_sibling_statuses now repo msg.task_id sibling_msg
        (record { db = reported now msg db; commits = [] })
      ≡ (
        ok (siblings repo msg (reported now msg db)),
        record { db = failed_db now repo msg db; commits = [] },
      )
unfolding fail_sibling_statuses failed_db siblings
fail_run now repo msg db =
    session_scope_run _ (record { db = reported now msg db; commits = [] }) refl refl

siblings_unseen :
    (now repo : ℕ) (msg : BuildStatusMsg) (db : Db)
    → siblings repo msg (reported now msg db) ≡ siblings repo msg db
unfolding siblings reported is_sibling
siblings_unseen now repo msg db =
    length-where-update_unseen (is_sibling repo msg.task_id) _ (updated_row now (build_update msg))
      db.statuses
      (λ s e.
        unfold is_sibling in ground (arith, e, (updated_row-KeepsKeys now (build_update msg)).id s))

report_failure_run :
    (now : ℕ) (msg : BuildStatusMsg) (stats : BuildStats) (db : Db) (s : Status)
    → IsConsistent db
    → Has s db.statuses
    → s.id ≡ msg.task_id
    → report_failure now msg.task_id stats (record { db = reported now msg db; commits = [] }) ≡ (
      ok ack,
      record stats { failures = suc stats.failures + siblings s.repo_id msg db },
      record { db = failed_db now s.repo_id msg db; commits = [] },
    )
unfolding report_failure fail_siblings count_result
report_failure_run now msg stats db s v m e =
    let (t, q, same) = read_back now msg db s v m e in
    let w : World = record { db = reported now msg db; commits = [] } in
    let chain : fail_siblings now msg.task_id w ≡ (
      ok (siblings s.repo_id msg db),
      record { db = failed_db now s.repo_id msg db; commits = [] },
    ) =
      bind_run (get_status_row_by_id msg.task_id)
        (λ (row : Status). fail_sibling_statuses now row.repo_id msg.task_id sibling_msg) w w t
        (get_row_run msg.task_id (reported now msg db) t q)
      ∙ fail_run now t.repo_id msg db
      ∙ ap
          (λ r. (
            ok (siblings r msg (reported now msg db)),
            record { db = failed_db now r msg db; commits = [] },
          ))
          same
      ∙ ap (λ n. (ok n, record { db = failed_db now s.repo_id msg db; commits = [] }))
          (siblings_unseen now s.repo_id msg db) in
    ap
      (λ (r : Result ℕ × World). (
        (count_result (record stats { failures = suc stats.failures }) r.0).0,
        (count_result (record stats { failures = suc stats.failures }) r.0).1,
        r.1,
      ))
      chain

-- A FAILED report of a stored task is acknowledged. Its row holds the failure with the end of the
-- message; each row of the same repository that was still in INIT is failed with it; every other
-- row is as it was. The failures grow by one and by the number of those rows, the successes do not.
-- The keys are consistent and the database accepts every commit.
pub handle_build_status_failed :
    (now : ℕ) (msg : BuildStatusMsg) (stats : BuildStats) (w : World) (s : Status)
    → IsConsistent w.db
    → w.commits ≡ []
    → Has s w.db.statuses
    → s.id ≡ msg.task_id
    → msg.status ≡ BuildStatus.failed
    → ((handle_build_status now msg stats w).0 ≡ ok ack)
      × Rowwise
          (IsFailing s.repo_id msg)
          w.db.statuses
          (handle_build_status now msg stats w).2.db.statuses
      × ((handle_build_status now msg stats w).1.failures
          ≡ suc stats.failures + length (where_ (is_sibling s.repo_id msg.task_id) w.db.statuses))
      × ((handle_build_status now msg stats w).1.successes ≡ stats.successes)
unfolding handle_build_status after_update build_status_eq
handle_build_status_failed now msg stats w s v c m e f =
    let run : handle_build_status now msg stats w ≡ (
      ok ack,
      record stats { failures = suc stats.failures + siblings s.repo_id msg w.db },
      record { db = failed_db now s.repo_id msg w.db; commits = [] },
    ) =
      ap (λ (r : Result Unit × World). after_update now msg stats r.0 r.1)
        (reported_run now msg w c)
      ∙ branch
      ∙ report_failure_run now msg stats w.db s v m e in
    (
      ap (λ r. r.0) run,
      subst (Rowwise (IsFailing s.repo_id msg) w.db.statuses)
          (sym (ap (λ (r : Result AckDecision × BuildStats × World). r.2.db.statuses) run)) rows,
      ap (λ (r : Result AckDecision × BuildStats × World). r.1.failures) run ∙ count,
      ap (λ (r : Result AckDecision × BuildStats × World). r.1.successes) run,
    )
  where
    branch :
        after_update now msg stats (ok tt) (record { db = reported now msg w.db; commits = [] })
        ≡ report_failure now msg.task_id stats (record { db = reported now msg w.db; commits = [] })
    branch = rw (f, after_update) refl

    rows :
        Rowwise (IsFailing s.repo_id msg) w.db.statuses (failed_db now s.repo_id msg w.db).statuses
    rows =
        unfold failed_db reported in
        Rowwise-update-update (IsFailing s.repo_id msg) (λ (s : Status). s.id == msg.task_id)
          (is_sibling s.repo_id msg.task_id) (updated_row now (build_update msg))
          (failed_row now sibling_msg) w.db.statuses (λ r. IsFailing-row now s.repo_id msg r f)

    count :
        suc stats.failures + siblings s.repo_id msg w.db
        ≡ suc stats.failures + length (where_ (is_sibling s.repo_id msg.task_id) w.db.statuses)
    count = unfold siblings in refl
