-- ===== src/Coordinator/Ingest/Others.antt =====
-- What `handle_build_status` does with a report that is not FAILED.
use assemblage.Prelude.{
  ℕ, suc, ◌≡◌, ◌≢◌, refl, sym, ap, subst, ◌∙◌, ◌⊎◌, inl, inr, Bool, ◌==◌, nat_eq, ==_eq,
  if◌then◌else◌, List, [], ◌∷◌, Text, arith, Bool-cases,
}
use assemblage.Str.{last_n}
use assemblage.Enums.{BuildStatus, build_status_eq}
use assemblage.Messages.{BuildStatusMsg}
use assemblage.Mq.Consumer.{AckDecision, ack}
use assemblage.Db.Models.{Status}
use assemblage.Db.Session.{World, Result, ok}
use assemblage.Db.Query.{update}
use assemblage.Store.Statuses.{updated_row}
use assemblage.Coordinator.Ingest.{
  BuildStats, handle_build_status, build_update, after_update, build_msg_limit,
}
use assemblage.Coordinator.Ingest.Results.{Rowwise, reported, reported_run}

-- A sha is taken from the message unless it is empty.
abbrev chosen_sha : Text → Text → Text
chosen_sha [] old = old
chosen_sha (c ∷ cs) old = c ∷ cs

-- The row of the message holds the message's columns; any other row is as it was.
abbrev pub IsUpdated : BuildStatusMsg → Status → Status → Type 0
IsUpdated msg s t =
    (s.id ≡ msg.task_id)
      × (t.build_status ≡ msg.status)
      × (t.build_msg ≡ last_n build_msg_limit msg.msg)
      × (t.build_time ≡ msg.build_time)
      × (t.commit_hexsha ≡ chosen_sha msg.commit_hexsha s.commit_hexsha)
      × (t.clone_status ≡ s.clone_status)
    ⊎ (s.id ≢ msg.task_id) × (t ≡ s)

updated_row-IsUpdated :
    (now : ℕ) (msg : BuildStatusMsg) (s : Status)
    → IsUpdated msg s (if s.id == msg.task_id then updated_row now (build_update msg) s else s)
unfolding updated_row build_update
updated_row-IsUpdated now msg s = elim (Bool-cases (s.id == msg.task_id)) [
  | inl e ↦ inl (==_eq _ _ e, ground arith, ground arith, ground arith, ground arith, ground arith)
  | inr e ↦ inr (ground arith, ground arith)
]

update-Rowwise :
    (R : Status → Status → Type 0) (p : Status → Bool) (f : Status → Status) (ss : List Status)
    → ((s : Status) → R s (if p s then f s else s))
    → Rowwise R ss (update p f ss)
unfolding update
update-Rowwise R p f [] k = tt
update-Rowwise R p f (s ∷ ss) k = (k s, update-Rowwise R p f ss k)

other_branch :
    (now : ℕ) (msg : BuildStatusMsg) (stats : BuildStats) (w : World)
    → msg.status ≢ BuildStatus.failed
    → after_update now msg stats (ok tt) w ≡ (
      ok ack,
      (if msg.status == BuildStatus.success
          then record stats { successes = suc stats.successes }
          else stats),
      w,
    )
unfolding after_update
other_branch now msg stats w h = elim (Bool-cases (msg.status == BuildStatus.success)) [
  | inl e ↦ rw (e, after_update) refl
  | inr e ↦ elim (Bool-cases (msg.status == BuildStatus.failed)) [
    | inl f ↦ absurd (h (==_eq _ _ f))
    | inr f ↦ rw (e, f, after_update) refl
  ]
]

-- A report other than FAILED is acknowledged; its row, if there is one, holds the message's status,
-- time and the end of its text, and the message's sha, or where that is empty the row's old one; every
-- other row is as it was. The failures stay; the
-- successes grow by one exactly on SUCCESS. The database accepts every commit.
pub handle_build_status_other :
    (now : ℕ) (msg : BuildStatusMsg) (stats : BuildStats) (w : World)
    → w.commits ≡ []
    → msg.status ≢ BuildStatus.failed
    → ((handle_build_status now msg stats w).0 ≡ ok ack)
      × Rowwise (IsUpdated msg) w.db.statuses (handle_build_status now msg stats w).2.db.statuses
      × ((handle_build_status now msg stats w).1.failures ≡ stats.failures)
      × ((handle_build_status now msg stats w).1.successes
          ≡ (if msg.status == BuildStatus.success then suc stats.successes else stats.successes))
unfolding handle_build_status reported
handle_build_status_other now msg stats w c h =
    let run : handle_build_status now msg stats w ≡ (
      ok ack,
      (if msg.status == BuildStatus.success
          then record stats { successes = suc stats.successes }
          else stats),
      record { db = reported now msg w.db; commits = [] },
    ) =
      ap (λ (r : Result Unit × World). after_update now msg stats r.0 r.1)
        (reported_run now msg w c)
      ∙ other_branch now msg stats _ h in
    (
      ap (λ r. r.0) run,
      subst (Rowwise (IsUpdated msg) w.db.statuses)
          (sym (ap (λ (r : Result AckDecision × BuildStats × World). r.2.db.statuses) run))
          (update-Rowwise (IsUpdated msg) (λ (s : Status). s.id == msg.task_id)
            (updated_row now (build_update msg)) w.db.statuses (updated_row-IsUpdated now msg)),
      ap (λ (r : Result AckDecision × BuildStats × World). r.1.failures) run ∙ keeps,
      ap (λ (r : Result AckDecision × BuildStats × World). r.1.successes) run ∙ grows,
    )
  where
    keeps :
        (if msg.status == BuildStatus.success
          then record stats { successes = suc stats.successes }
          else stats).failures
        ≡ stats.failures
    keeps = elim (Bool-cases (msg.status == BuildStatus.success)) [
      | inl e ↦ rw e refl
      | inr e ↦ rw e refl
    ]

    grows :
        (if msg.status == BuildStatus.success
          then record stats { successes = suc stats.successes }
          else stats).successes
        ≡ (if msg.status == BuildStatus.success then suc stats.successes else stats.successes)
    grows = elim (Bool-cases (msg.status == BuildStatus.success)) [
      | inl e ↦ rw e refl
      | inr e ↦ rw e refl
    ]
