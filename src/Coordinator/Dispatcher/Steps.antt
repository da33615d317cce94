-- ===== src/Coordinator/Dispatcher/Steps.antt =====
-- One iteration of a dispatcher: what is published and what is marked.
use assemblage.Prelude.{
  suc, ◌≡◌, refl, ◌⊎◌, inl, inr, Bool, ltb, [], ◌∷◌, ◌++◌, Option, none, some, Text, arith,
  Bool-cases, Option-cases,
}
use assemblage.Db.Session.{Result, ok, err, World, Failure}
use assemblage.Db.Query.{All}
use assemblage.Store.Dispatch.{DispatchCandidate, next_dispatchable, mark_clone_processing}
use assemblage.Store.Dispatch.Choosing.{next_dispatchable-db}
use assemblage.Mq.Publisher.{Published, delivered, publish_error, other_error, publish, copies}
use assemblage.Mq.Publisher.Copies.{IsUnconfirmed, copies-All}
use assemblage.Coordinator.Dispatcher.{
  after_publish, placed_now, max_attempts, Env, Dispatcher, Step, waited, store_error, encode,
  build_task, send, after_choice, after_mark, dispatch_step, threshold, dispatch_interval,
}

module _ (ilike : Text → Text → Bool) (strftime : Text → Text) where
  abbrev looked : Env → Dispatcher → Result (Option DispatchCandidate) × World
  looked env d = next_dispatchable ilike strftime env.row env.blocklist d.opt_id d.world

  -- Nothing is published and no table is changed.
  abbrev pub Idles : Dispatcher → Dispatcher → Type 0
  Idles d d' = (d'.sent ≡ d.sent) × (d'.world.db ≡ d.world.db)

  -- A task that the store returned is published, confirmed, and then marked.
  abbrev pub Sends : Env → Dispatcher → Step → Dispatcher → Type 0
  Sends env d r d' =
      (c : DispatchCandidate) × ((looked env d).0 ≡ ok (some c))
      × (publish max_attempts env.answer ≡ delivered)
      × (d'.sent ≡ d.sent ++ encode (build_task env.now c) ∷ [])
      × (d'.world ≡ (mark_clone_processing env.now c.task_id (looked env d).1).1)
      × (((mark_clone_processing env.now c.task_id (looked env d).1).0 ≡ ok tt)
            × (r ≡ waited dispatch_interval)
            × (d'.dispatched ≡ suc d.dispatched)
          ⊎ (e : Failure) × ((mark_clone_processing env.now c.task_id (looked env d).1).0 ≡ err e)
            × (r ≡ store_error))

  -- The dispatcher with the candidate's copies on the broker.
  abbrev offered : Env → DispatchCandidate → Dispatcher → Dispatcher
  offered env c d = record d { placed = d.placed ++ placed_now env c; world = (looked env d).1 }

  after_publish-Sends :
      (env : Env) (c : DispatchCandidate) (d : Dispatcher)
      → (looked env d).0 ≡ ok (some c)
      → publish max_attempts env.answer ≡ delivered
      → Sends env d
          (after_publish env c (offered env c d) delivered).0
          (after_publish env c (offered env c d) delivered).1
  unfolding after_publish after_mark
  after_publish-Sends env c d h sure =
      marked (mark_clone_processing env.now c.task_id (looked env d).1).0 refl
    where
      marked :
          (r : Result (Unit {0}))
          → (mark_clone_processing env.now c.task_id (looked env d).1).0 ≡ r
          → Sends env d
              (after_publish env c (offered env c d) delivered).0
              (after_publish env c (offered env c d) delivered).1
      marked (ok u) e =
          (c, h, sure, ground arith, ground arith, inl (e, ground arith, ground arith))
      marked (err f) e = (c, h, sure, ground arith, ground arith, inr (f, e, ground arith))

  send-cases :
      (env : Env) (c : DispatchCandidate) (d : Dispatcher) (p : Published)
      → (looked env d).0 ≡ ok (some c)
      → publish max_attempts env.answer ≡ p
      → Idles d (after_publish env c (offered env c d) p).1
        ⊎ Sends env d
            (after_publish env c (offered env c d) p).0
            (after_publish env c (offered env c d) p).1
  unfolding after_publish
  send-cases env c d delivered h e = inr (after_publish-Sends env c d h e)
  send-cases env c d publish_error h e =
      inl (refl, next_dispatchable-db ilike strftime _ _ _ d.world)
  send-cases env c d other_error h e = inl (refl, next_dispatchable-db ilike strftime _ _ _ d.world)

  after_choice-cases :
      (env : Env) (d : Dispatcher) (r : Result (Option DispatchCandidate))
      → (looked env d).0 ≡ r
      → let out = after_choice env r (record d { world = (looked env d).1 }) in
        Idles d out.1 ⊎ Sends env d out.0 out.1
  unfolding after_choice
  after_choice-cases env d (err e) h = inl (refl, next_dispatchable-db ilike strftime _ _ _ d.world)
  after_choice-cases env d (ok none) h =
      inl (refl, next_dispatchable-db ilike strftime _ _ _ d.world)
  after_choice-cases env d (ok (some c)) h =
      unfold send in send-cases env c d (publish max_attempts env.answer) h refl

  -- One iteration has no publish that returns and changes no table, or the store returned a task, the
  -- broker confirmed its message, and only then the task was marked; the iteration is counted when the mark is
  -- committed, and raises the store's error when it is not. So no row is changed for a message that
  -- the broker did not confirm.
  pub dispatch_step-cases :
      (env : Env) (d : Dispatcher)
      → Idles d (dispatch_step ilike strftime env d).1
        ⊎ Sends env d (dispatch_step ilike strftime env d).0 (dispatch_step ilike strftime env d).1
  unfolding dispatch_step
  dispatch_step-cases env d = elim (Option-cases env.depth) [
    | inl e ↦ rw (e, dispatch_step) (inl (refl, refl))
    | inr (n, e) ↦ elim (Bool-cases (ltb threshold n)) [
      | inl deep ↦ rw (e, dispatch_step) (rw deep (inl (refl, refl)))
      | inr shallow ↦
          rw (e, dispatch_step) (rw shallow (after_choice-cases env d (looked env d).0 refl))
    ]
  ]

  -- The copies of a task that the store returned are put on the broker; if one of them is confirmed,
  -- the task is marked.
  abbrev pub Places : Env → Dispatcher → Dispatcher → Type 0
  Places env d d' =
      (c : DispatchCandidate) × ((looked env d).0 ≡ ok (some c))
      × (d'.placed ≡ d.placed ++ placed_now env c)
      × (All IsUnconfirmed (copies max_attempts env.answer env.took)
          ⊎ (d'.world ≡ (mark_clone_processing env.now c.task_id (looked env d).1).1))

  after_mark-placed :
      (r : Result Unit) (d : Dispatcher)
      → ((after_mark r d).1.placed ≡ d.placed) × ((after_mark r d).1.world ≡ d.world)
  unfolding after_mark
  after_mark-placed (ok u) d = (refl, refl)
  after_mark-placed (err e) d = (refl, refl)

  send-Places :
      (env : Env) (c : DispatchCandidate) (d : Dispatcher) (p : Published)
      → (looked env d).0 ≡ ok (some c)
      → publish max_attempts env.answer ≡ p
      → Places env d (after_publish env c (offered env c d) p).1
  unfolding after_publish
  send-Places env c d delivered h e =
      let (same, world) =
        after_mark-placed (mark_clone_processing env.now c.task_id (looked env d).1).0 _ in
      (c, h, same, inr world)
  send-Places env c d publish_error h e =
      (c, h, refl, inl (copies-All env.answer env.took max_attempts (λ q. cc)))
  send-Places env c d other_error h e =
      (c, h, refl, inl (copies-All env.answer env.took max_attempts (λ q. cc)))

  after_choice-placed :
      (env : Env) (d : Dispatcher) (r : Result (Option DispatchCandidate))
      → (looked env d).0 ≡ r
      → let out = after_choice env r (record d { world = (looked env d).1 }) in
        (out.1.placed ≡ d.placed) ⊎ Places env d out.1
  unfolding after_choice
  after_choice-placed env d (err e) h = inl refl
  after_choice-placed env d (ok none) h = inl refl
  after_choice-placed env d (ok (some c)) h =
      unfold send in inr (send-Places env c d (publish max_attempts env.answer) h refl)

  -- What one iteration puts on the broker.
  pub dispatch_step-placed :
      (env : Env) (d : Dispatcher)
      → ((dispatch_step ilike strftime env d).1.placed ≡ d.placed)
        ⊎ Places env d (dispatch_step ilike strftime env d).1
  unfolding dispatch_step
  dispatch_step-placed env d = elim (Option-cases env.depth) [
    | inl e ↦ rw (e, dispatch_step) (inl refl)
    | inr (n, e) ↦ elim (Bool-cases (ltb threshold n)) [
      | inl deep ↦ rw (e, dispatch_step) (rw deep (inl refl))
      | inr shallow ↦
          rw (e, dispatch_step) (rw shallow (after_choice-placed env d (looked env d).0 refl))
    ]
  ]
