-- ===== src/Coordinator/Dispatcher/Keeping.antt =====
-- An iteration of a dispatcher keeps the keys and what was started.
use assemblage.Prelude.{
  ℕ, ◌≡◌, refl, Bool, ◌++◌, subst, sym, ltb, Option, none, some, Text, Bool-cases, Option-cases,
  inl, inr,
}
use assemblage.Blocklist.{Blocklist}
use assemblage.Db.Integrity.{IsConsistent}
use assemblage.Db.Session.{World, Result, ok, err}
use assemblage.Store.Progress.{Progress, Progress-refl}
use assemblage.Store.Dispatch.{DispatchCandidate, next_dispatchable}
use assemblage.Store.Dispatch.Choosing.{next_dispatchable-db, next_dispatchable-commits}
use assemblage.Store.Moves.{Moves, Moves-refl, Moves-trans, mark_clone_processing-Moves}
use assemblage.Mq.Publisher.{Published, delivered, publish_error, other_error, publish}
use assemblage.Coordinator.Dispatcher.{
  Env, Dispatcher, placed_now, max_attempts, after_mark, after_publish, send, after_choice, choose,
  dispatch_step, threshold,
}

after_mark-world : (r : Result Unit) (d : Dispatcher) → (after_mark r d).1.world ≡ d.world
unfolding after_mark
after_mark-world (ok u) d = refl
after_mark-world (err e) d = refl

after_publish-Moves :
    (env : Env) (c : DispatchCandidate) (d : Dispatcher) (p : Published)
    → Moves d.world (after_publish env c d p).1.world
unfolding after_publish
after_publish-Moves env c d delivered =
    subst (Moves d.world) (sym (after_mark-world _ _))
      (mark_clone_processing-Moves env.now c.task_id d.world)
after_publish-Moves env c d publish_error = Moves-refl d.world
after_publish-Moves env c d other_error = Moves-refl d.world

send-Moves :
    (env : Env) (c : DispatchCandidate) (d : Dispatcher) → Moves d.world (send env c d).1.world
unfolding send
send-Moves env c d =
    after_publish-Moves env c (record d { placed = d.placed ++ placed_now env c })
      (publish max_attempts env.answer)

after_choice-Moves :
    (env : Env) (r : Result (Option DispatchCandidate)) (d : Dispatcher)
    → Moves d.world (after_choice env r d).1.world
unfolding after_choice
after_choice-Moves env (err e) d = Moves-refl d.world
after_choice-Moves env (ok none) d = Moves-refl d.world
after_choice-Moves env (ok (some c)) d = send-Moves env c d

module _ (ilike : Text → Text → Bool) (strftime : Text → Text) where
  next_dispatchable-Moves :
      (row : ℕ) (b : Option Blocklist) (opt_id : ℕ) (w : World)
      → Moves w (next_dispatchable ilike strftime row b opt_id w).1
  next_dispatchable-Moves row b opt_id w =
      let same = next_dispatchable-db ilike strftime row b opt_id w in
      record {
        consistent = subst IsConsistent (sym same);
        progress = subst (Progress w.db) (sym same) (Progress-refl w.db);
        commits = next_dispatchable-commits ilike strftime row b opt_id w;
      }

  pub dispatch_step-Moves :
      (env : Env) (d : Dispatcher) → Moves d.world (dispatch_step ilike strftime env d).1.world
  unfolding dispatch_step choose
  dispatch_step-Moves env d = elim (Option-cases env.depth) [
    | inl e ↦ rw (e, dispatch_step) (Moves-refl d.world)
    | inr (n, e) ↦ elim (Bool-cases (ltb threshold n)) [
      | inl deep ↦ rw (e, dispatch_step) (rw deep (Moves-refl d.world))
      | inr shallow ↦
          rw (e, dispatch_step)
            (rw shallow (
              Moves-trans d.world _ _
                (next_dispatchable-Moves env.row env.blocklist d.opt_id d.world)
                (after_choice-Moves env _ _)))
    ]
  ]
