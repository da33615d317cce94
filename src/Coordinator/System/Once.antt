-- ===== src/Coordinator/System/Once.antt =====
-- The copies of tasks on the broker over a run of the coordinator.
use assemblage.Prelude.{
  ℕ, ◌<◌, ◌≡◌, ◌≢◌, sym, ap, ◌∙◌, ◌⊎◌, true, subst, inl, inr, Bool, nat_eq, List, [], ◌∷◌, ◌++◌,
  Text, arith,
}
use assemblage.Enums.{CloneStatus}
use assemblage.Db.Models.{RepoDo, Status}
use assemblage.Db.Session.{World}
use assemblage.Db.Integrity.{IsConsistent}
use assemblage.Db.Query.{Has, All}
use assemblage.Db.Query.Laws.{All-append, All-mono, All-has, Has-map}
use assemblage.Db.Query.Keys.{Rising-lt}
use assemblage.Store.Progress.{IsStarted}
use assemblage.Store.Dispatch.{DispatchCandidate, next_dispatchable, mark_clone_processing}
use assemblage.Store.Dispatch.Choosing.{next_dispatchable_sound, next_dispatchable-commits}
use assemblage.Store.Dispatch.Marking.{
  mark_clone_processing-IsStarted, mark_clone_processing-returns,
}
use assemblage.Store.Moves.{Moves}
use assemblage.Coordinator.Ingest.Keeping.{
  handle_clone_status-Moves, handle_build_status-Moves, handle_binary-Moves, handle_ir-Moves,
  insert_bundle-Moves,
}
use assemblage.Coordinator.Ingest.{handle_scrape}
use assemblage.Coordinator.Registration.Keeping.{
  handle_builder_registration-Moves, handle_scraper_registration-Moves,
}
use assemblage.Coordinator.Dispatcher.{
  Env, Payload, Dispatcher, dispatch_step, encode, build_task, batch, max_attempts,
}
use assemblage.Coordinator.Dispatcher.Keeping.{dispatch_step-Moves}
use assemblage.Coordinator.Dispatcher.Steps.{dispatch_step-placed, Places}
use assemblage.Mq.Publisher.{copies}
use assemblage.Mq.Publisher.Copies.{ConfirmedLast, IsUnconfirmed, copies-ConfirmedLast}
use assemblage.Coordinator.System.{
  System, Event, dispatches, clone_reported, build_reported, binary_reported, ir_reported, scraped,
  builder_registered, scraper_registered, step, run,
}

-- The key of the task of a copy.
abbrev pub key_of : Payload × Bool → ℕ
key_of q = q.0.task.task_id

-- After a confirmed copy of a task there is no copy of it any more, confirmed or not.
abbrev pub NoneLater : List (Payload × Bool) → Type 0
NoneLater [] = Unit
NoneLater (q ∷ qs) = (q.1 ≡ true → All (λ r. key_of r ≢ key_of q) qs) × NoneLater qs

-- No copy behind a confirmed one has its key.
abbrev Avoids : List (Payload × Bool) → Payload × Bool → Type 0
Avoids later q = q.1 ≡ true → All (λ r. key_of r ≢ key_of q) later

NoneLater-append :
    (qs later : List (Payload × Bool))
    → NoneLater qs
    → NoneLater later
    → All (Avoids later) qs
    → NoneLater (qs ++ later)
NoneLater-append [] later h hl a = hl
NoneLater-append (q ∷ qs) later (h, hs) hl (a, others) = (
  (λ e. All-append (λ r. key_of r ≢ key_of q) qs later (h e) (a e)),
  NoneLater-append qs later hs hl others,
)

batch-NoneLater : (p : Payload) (bs : List Bool) → ConfirmedLast bs → NoneLater (batch p bs)
batch-NoneLater p [] h = tt
batch-NoneLater p (b ∷ bs) (h, hs) = (
  (λ e. subst (λ l. All (λ r. key_of r ≢ p.task.task_id) (batch p l)) (sym (h e)) tt),
  batch-NoneLater p bs hs,
)

batch-All :
    (P : Payload × Bool → Type 0) (p : Payload) (bs : List Bool)
    → ((b : Bool) → P (p, b))
    → All P (batch p bs)
batch-All P p [] h = tt
batch-All P p (b ∷ bs) h = (h b, batch-All P p bs h)

-- A clone report never says that the task is not started.
abbrev pub IsReport : Event → Type 0
IsReport (clone_reported now msg) = msg.status ≢ CloneStatus.not_started
IsReport _ = Unit

-- The row of a confirmed copy has left NOT_STARTED.
abbrev pub IsMarked : World → Payload × Bool → Type 0
IsMarked w q = q.1 ≡ true → (key_of q < w.db.next_status) × IsStarted (key_of q) w.db

-- The keys are consistent, every commit is accepted, and what was confirmed was started.
pub record IsSound (w : World) (placed : List (Payload × Bool)) : Type 0 where
  pub consistent : IsConsistent w.db
  pub commits : w.commits ≡ []
  pub last : NoneLater placed
  pub marked : All (IsMarked w) placed

IsMarked-Moves : (w w' : World) (q : Payload × Bool) → Moves w w' → IsMarked w q → IsMarked w' q
IsMarked-Moves w w' q m h e =
    let (lt, st) = h e in (omega (arith, lt, m.progress.keys), m.progress.started (key_of q) lt st)

IsSound-Moves :
    (w w' : World) (placed : List (Payload × Bool))
    → Moves w w'
    → IsSound w placed
    → IsSound w' placed
IsSound-Moves w w' placed m v = record {
  consistent = m.consistent v.consistent;
  commits = m.commits v.commits;
  last = v.last;
  marked = All-mono placed (λ q h. IsMarked-Moves w w' q m h) v.marked;
}

-- A row that can be chosen has no confirmed copy.
unconfirmed_yet :
    (w : World) (q : Payload × Bool) (s : Status)
    → Has s w.db.statuses
    → s.clone_status ≡ CloneStatus.not_started
    → IsMarked w q
    → q.1 ≡ true
    → s.id ≢ key_of q
unconfirmed_yet w q s m fresh h e same =
    All-has (λ (r : Status). r.id ≡ key_of q → r.clone_status ≢ CloneStatus.not_started)
      w.db.statuses (h e).1 m same fresh

-- The copies of a task whose row could be chosen follow; if one is confirmed, the row is marked.
IsSound-batch :
    (w w' : World) (placed : List (Payload × Bool)) (p : Payload) (bs : List Bool) (s : Status)
    → Moves w w'
    → IsSound w placed
    → Has s w.db.statuses
    → s.clone_status ≡ CloneStatus.not_started
    → p.task.task_id ≡ s.id
    → ConfirmedLast bs
    → All IsUnconfirmed bs ⊎ IsStarted s.id w'.db
    → IsSound w' (placed ++ batch p bs)
IsSound-batch w w' placed p bs s m v i fresh k last marks =
    let moved = IsSound-Moves w w' placed m v in
    record {
      consistent = moved.consistent;
      commits = moved.commits;
      last = NoneLater-append placed (batch p bs) v.last (batch-NoneLater p bs last) (
          All-mono placed
            (λ q h e.
              batch-All (λ r. key_of r ≢ key_of q) p bs
                (λ b same. unconfirmed_yet w q s i fresh h e (sym k ∙ same)))
            v.marked);
      marked = All-append (IsMarked w') placed (batch p bs) moved.marked (now marks);
    }
  where
    below : p.task.task_id < w'.db.next_status
    below = omega (
      arith,
      k,
      m.progress.keys,
      (Rising-lt 0 w.db.next_status _ s.id v.consistent.status_keys
          (Has-map (λ (s : Status). s.id) s w.db.statuses i)).1,
    )

    none_marked : (cs : List Bool) → All IsUnconfirmed cs → All (IsMarked w') (batch p cs)
    none_marked [] h = tt
    none_marked (c ∷ cs) (h, hs) = ((λ e. absurd (cc)), none_marked cs hs)

    now : All IsUnconfirmed bs ⊎ IsStarted s.id w'.db → All (IsMarked w') (batch p bs)
    now (inl h) = none_marked bs h
    now (inr st) =
        batch-All (IsMarked w') p bs (λ b e. (below, subst (λ j. IsStarted j w'.db) (sym k) st))

module _ (ilike : Text → Text → Bool) (strftime : Text → Text) where
  Places-IsSound :
      (env : Env) (d d' : Dispatcher)
      → IsSound d.world d.placed
      → Moves d.world d'.world
      → Places ilike strftime env d d'
      → IsSound d'.world d'.placed
  unfolding encode build_task
  Places-IsSound env d d' v m (c, chosen, placed, marks) =
      let (s, _, _, i, pending, _, _, _, _, _, q) =
        next_dispatchable_sound ilike strftime env.row env.blocklist d.opt_id d.world c v.consistent
          chosen in
      let task : c.task_id ≡ s.id = ap (λ (c : DispatchCandidate). c.task_id) q in
      subst (IsSound d'.world) (sym placed) (
        IsSound-batch d.world d'.world d.placed (encode (build_task env.now c))
          (copies max_attempts env.answer env.took) s m v i pending.clone task
          (copies-ConfirmedLast env.answer env.took max_attempts) (done c s task marks))
    where
      done :
          (c : DispatchCandidate) (s : Status)
          → c.task_id ≡ s.id
          → All IsUnconfirmed (copies max_attempts env.answer env.took)
            ⊎ (d'.world
                ≡ (mark_clone_processing env.now c.task_id
                    (next_dispatchable ilike strftime env.row env.blocklist d.opt_id d.world).1).1)
          → All IsUnconfirmed (copies max_attempts env.answer env.took) ⊎ IsStarted s.id d'.world.db
      done c s task (inl h) = inl h
      done c s task (inr world) =
          let w1 = (next_dispatchable ilike strftime env.row env.blocklist d.opt_id d.world).1 in
          let started : IsStarted c.task_id d'.world.db =
            subst (λ (w : World). IsStarted c.task_id w.db) (sym world)
              (mark_clone_processing-IsStarted env.now c.task_id w1 (
                mark_clone_processing-returns env.now c.task_id w1 (
                  next_dispatchable-commits ilike strftime env.row env.blocklist d.opt_id d.world
                    v.commits))) in
          inr (subst (λ j. IsStarted j d'.world.db) task started)

  dispatch_step-IsSound :
      (env : Env) (d : Dispatcher)
      → IsSound d.world d.placed
      → IsSound
          (dispatch_step ilike strftime env d).1.world
          (dispatch_step ilike strftime env d).1.placed
  dispatch_step-IsSound env d v =
      let m = dispatch_step-Moves ilike strftime env d in
      elim (dispatch_step-placed ilike strftime env d) [
        | inl same ↦
            subst (IsSound (dispatch_step ilike strftime env d).1.world) (sym same)
              (IsSound-Moves d.world _ d.placed m v)
        | inr places ↦ Places-IsSound env d (dispatch_step ilike strftime env d).1 v m places
      ]

  module _ (accepts : RepoDo → Bool) where
    step-IsSound :
        (e : Event) (s : System)
        → IsReport e
        → IsSound s.world s.placed
        → IsSound (step ilike strftime accepts e s).world (step ilike strftime accepts e s).placed
    unfolding step handle_scrape
    step-IsSound (dispatches env opt_id) s h v =
        dispatch_step-IsSound env
          (record {
            opt_id = opt_id;
            dispatched = 0;
            sent = s.sent;
            placed = s.placed;
            signals = s.signals;
            world = s.world;
          })
          v
    step-IsSound (clone_reported now msg) s h v =
        IsSound-Moves s.world _ s.placed (handle_clone_status-Moves now msg s.world h) v
    step-IsSound (build_reported now msg) s h v =
        IsSound-Moves s.world _ s.placed (handle_build_status-Moves now msg s.stats s.world) v
    step-IsSound (binary_reported now msg) s h v =
        IsSound-Moves s.world _ s.placed (handle_binary-Moves now msg s.world) v
    step-IsSound (ir_reported now msg) s h v =
        IsSound-Moves s.world _ s.placed (handle_ir-Moves now msg s.world) v
    step-IsSound (scraped now bundle) s h v =
        IsSound-Moves s.world _ s.placed (insert_bundle-Moves accepts now bundle s.world) v
    step-IsSound (builder_registered sends row msg) s h v =
        IsSound-Moves s.world _ s.placed
          (handle_builder_registration-Moves sends row msg s.manager s.world) v
    step-IsSound (scraper_registered sends row msg id reply) s h v =
        IsSound-Moves s.world _ s.placed
          (handle_scraper_registration-Moves sends row msg id reply s.registry s.world) v

    run-IsSound :
        (es : List Event) (s : System)
        → All IsReport es
        → IsSound s.world s.placed
        → IsSound (run ilike strftime accepts es s).world (run ilike strftime accepts es s).placed
    unfolding run
    run-IsSound [] s h v = v
    run-IsSound (e ∷ es) s h v =
        run-IsSound es (step ilike strftime accepts e s) h.1 (step-IsSound e s h.0 v)

    -- Whatever the order of the iterations of all dispatchers and of the handlers' calls, and however
    -- the attempts to publish end: once the broker confirms a copy of a task, no later attempt puts a copy
    -- of that task on the broker, so no task is confirmed twice; the row of every confirmed task has left
    -- NOT_STARTED, and the keys of the tables stay consistent. How many unconfirmed copies stand before
    -- it is left open. At the start the keys are consistent and the broker has no copy; the database
    -- accepts every commit; no clone report says NOT_STARTED.
    pub run-NoneLater :
        (es : List Event) (s : System)
        → All IsReport es
        → IsConsistent s.world.db
        → s.world.commits ≡ []
        → s.placed ≡ []
        → NoneLater (run ilike strftime accepts es s).placed
          × IsConsistent (run ilike strftime accepts es s).world.db
          × All
              (IsMarked (run ilike strftime accepts es s).world)
              (run ilike strftime accepts es s).placed
    run-NoneLater es s h v c e =
        let sound =
          run-IsSound es s h
            (record { consistent = v; commits = c; last = rw e tt; marked = rw e tt }) in
        (sound.last, sound.consistent, sound.marked)
