-- ===== src/Coordinator/Running.antt =====
-- The loops around the coordinator's work: `run` of `DispatcherService` (dispatch.py) and of
-- `ScraperRequestService` (scraper_requests.py), in backend/assemblage/coordinator.
use assemblage.Prelude.{
  ℕ, suc, Bool, true, false, if◌then◌else◌, List, [], ◌∷◌, length, ◌≡◌, refl, ap, ◌==◌, nat_eq, ◌⊎◌,
  Bool-cases, inl, inr, Text, codes, Option, none, some, Option-cases, map,
}
use assemblage.Prelude.{negsuc}
use assemblage.Enums.{request_repos}
use assemblage.Messages.{ScraperControlReply}
use assemblage.Mq.Publisher.{Published, delivered, publish_error, other_error}
use assemblage.Db.Query.{All}
use assemblage.Runtime.Service.{Backoff, delay, until_none, all_some}
use assemblage.Coordinator.Starvation.{Signals, take_starving}
use assemblage.Coordinator.Pending.{Pending, claim}
use assemblage.Coordinator.Registration.{Registry}
use assemblage.Coordinator.Dispatcher.{
  Env, Dispatcher, Step, waited, broker_error, store_error, publisher_error, dispatch_step,
}

-- One turn of a loop: is the stop event set at its head, and where an error of the broker is caught.
pub record Turn : Type 0 where
  pub stopped : Bool
  pub env : Env
  pub stopped_on_error : Bool

-- How the loop stands: it goes on (the turns are over), was asked to stop, or raised.
pub data Left : Type 0 where
  running stopped raised : Left

pub record Run : Type 0 where
  pub delays : List ℕ
  pub left : Left
  pub dispatcher : Dispatcher

-- n, n + 1, …
abbrev counting : ℕ → List Turn → List ℕ
counting n [] = []
counting n (t ∷ ts) = n ∷ counting (suc n) ts

module _ (ilike : Text → Text → Bool) (strftime : Text → Text) (power : ℕ → ℕ → Option ℕ)
    (perturb : ℕ → ℕ → ℕ) (backoff : Backoff) where
  delayed : ℕ → Run → Run
  delayed d r = record r { delays = d ∷ r.delays }

  -- Where the delay cannot be computed its exception ends the service.
  after_error : Option ℕ → Run → Dispatcher → Run
  after_error none rest d = record { delays = []; left = raised; dispatcher = d }
  after_error (some x) rest d = delayed x rest

  -- The turn's step is done: `go` is the rest of the loop from an attempt and a state.
  unfoldable pub after_step : Bool → ℕ → (ℕ → Dispatcher → Run) → Step × Dispatcher → Run
  unfolding after_error delayed delay
  after_step stop attempt go (waited n, d) = go 0 d
  after_step true attempt go (broker_error, d) = record {
    delays = [];
    left = stopped;
    dispatcher = d;
  }
  after_step false attempt go (broker_error, d) =
      after_error (delay power perturb backoff attempt) (go (suc attempt) d) d
  after_step stop attempt go (store_error, d) = record {
    delays = [];
    left = raised;
    dispatcher = d;
  }
  after_step stop attempt go (publisher_error, d) = record {
    delays = [];
    left = raised;
    dispatcher = d;
  }

  unfoldable pub run : List Turn → ℕ → Dispatcher → Run
  unfolding after_step dispatch_step
  run [] attempt d = record { delays = []; left = running; dispatcher = d }
  run (t ∷ ts) attempt d =
      if t.stopped
      then record { delays = []; left = stopped; dispatcher = d }
      else after_step t.stopped_on_error attempt (run ts) (dispatch_step ilike strftime t.env d)

  -- The queue's depth cannot be had, and nobody asks to stop.
  abbrev IsCutOff : Turn → Type 0
  IsCutOff t = (t.stopped ≡ false) × (t.env.depth ≡ none) × (t.stopped_on_error ≡ false)

  -- While the broker cannot be reached the loop touches nothing and goes on with growing delays, up to
  -- the first that overflows.
  run-delays :
      (ts : List Turn) (n : ℕ) (d : Dispatcher)
      → All IsCutOff ts
      → run ts n d ≡ record {
        delays = until_none (map (delay power perturb backoff) (counting n ts));
        left =
            if all_some (map (delay power perturb backoff) (counting n ts))
            then running
            else raised;
        dispatcher = d;
      }
  unfolding run after_step after_error delayed dispatch_step until_none all_some
  run-delays [] n d h = refl
  run-delays (t ∷ ts) n d ((a, b, c), h) = elim (Option-cases (delay power perturb backoff n)) [
    | inl e ↦ rw (a, b, c, e) refl
    | inr (x, e) ↦ rw (a, b, c, e) (ap (delayed x) (run-delays ts (suc n) d h))
  ]

-- What the broadcaster shares with the dispatchers, the handlers and the clock.
pub record Requests : Type 0 where
  pub starvation : Signals
  pub registry : Registry
  pub pending : Pending

request : ScraperControlReply
request = record {
  message_type = request_repos;
  start_time = none;
  end_time = none;
  policy = none;
  request_amount = negsuc 0;
  specific_recipient = false;
  qualifiers = none;
}

targets : Registry → List Text
targets [] = codes "scraper_ctrl" ∷ []
targets (q ∷ qs) = q ∷ qs

-- The queues that the request reaches; an exception other than `PublishError` ends the service.
broadcast : (Text → Published) → List Text → List Text × Bool
broadcast answer [] = ([], true)
broadcast answer (q ∷ qs) =
    let (reached, fine) = broadcast answer qs in
    elim (answer q) [
      | delivered ↦ (q ∷ reached, fine)
      | publish_error ↦ (reached, fine)
      | other_error ↦ ([], false)
    ]

-- One turn of the loop: the flags are taken, and then the gate may refuse.
unfoldable pub tick : (Text → Published) → ℕ → Requests → (List Text × Bool) × Requests
unfolding broadcast targets claim
tick answer now r =
    let (starving, signals) = take_starving r.starvation in
    let (granted, pending) = claim r.pending now in
    if length starving == 0
    then (([], true), record r { starvation = signals })
    else if granted
    then (
      broadcast answer (targets r.registry),
      record r { starvation = signals; pending = pending },
    )
    else (([], true), record r { starvation = signals; pending = pending })

-- Without a starving option, or while a request is outstanding, nothing is sent; the flags are down
-- after a turn all the same.
tick_quiet :
    (answer : Text → Published) (now : ℕ) (r : Requests)
    → ((take_starving r.starvation).0 ≡ []) ⊎ ((claim r.pending now).0 ≡ false)
    → ((tick answer now r).0 ≡ ([], true))
      × ((tick answer now r).1.starvation ≡ (take_starving r.starvation).1)
unfolding tick nat_eq
tick_quiet answer now r (inl e) = rw e (refl, refl)
tick_quiet answer now r (inr e) = elim (Bool-cases (length (take_starving r.starvation).0 == 0)) [
  | inl f ↦ rw (e, f) (refl, refl)
  | inr f ↦ rw (e, f) (refl, refl)
]
