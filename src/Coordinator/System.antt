-- ===== src/Coordinator/System.antt =====
-- The coordinator while it runs, as the consumers of backend/assemblage/coordinator/app.py drive it:
-- one handler call or one iteration of a dispatcher after another, in any order.
pub mod Once
use assemblage.Prelude.{ℕ, Bool, List, [], ◌∷◌, ◌++◌, map, Option, none, some, Text}
use assemblage.Messages.{
  RepoRecord, CloneStatusMsg, BuildStatusMsg, BinaryRecordMsg, IrRecordMsg, BuilderRegistration,
  ScraperControlRequest,
}
use assemblage.Db.Models.{RepoDo}
use assemblage.Db.Session.{World}
use assemblage.Coordinator.Starvation.{Signals}
use assemblage.Coordinator.Pending.{Pending}
use assemblage.Coordinator.Manager.{Manager}
use assemblage.Coordinator.Ingest.{
  BuildStats, handle_scrape, handle_clone_status, handle_build_status, handle_binary, handle_ir,
}
use assemblage.Coordinator.Registration.{
  Registry, handle_builder_registration, handle_scraper_registration,
}
use assemblage.Coordinator.Dispatcher.{Env, Payload, Dispatcher, dispatch_step}

-- What the services of the coordinator share.
pub record System : Type 0 where
  pub sent : List Payload
  pub placed : List (Payload × Bool)
  pub signals : Signals
  pub stats : BuildStats
  pub pending : Pending
  pub manager : Manager
  pub registry : Registry
  pub world : World

-- A handler call with its time and message, or an iteration of the dispatcher of an option.
pub data Event : Type 0 where
  dispatches : Env → ℕ → Event
  clone_reported : ℕ → CloneStatusMsg → Event
  build_reported : ℕ → BuildStatusMsg → Event
  binary_reported : ℕ → BinaryRecordMsg → Event
  ir_reported : ℕ → IrRecordMsg → Event
  scraped : ℕ → List RepoRecord → Event
  builder_registered : Bool → ℕ → BuilderRegistration → Event
  scraper_registered : Bool → ℕ → ScraperControlRequest → Option Text → Text → Event

module _ (ilike : Text → Text → Bool) (strftime : Text → Text) (accepts : RepoDo → Bool) where
  unfoldable pub step : Event → System → System
  step (dispatches env opt_id) s =
      let start : Dispatcher = record {
        opt_id = opt_id;
        dispatched = 0;
        sent = s.sent;
        placed = s.placed;
        signals = s.signals;
        world = s.world;
      } in
      let (r, d) = dispatch_step ilike strftime env start in
      record s { sent = d.sent; placed = d.placed; signals = d.signals; world = d.world }
  step (clone_reported now msg) s =
      let (r, w) = handle_clone_status now msg s.world in record s { world = w }
  step (build_reported now msg) s =
      let (r, stats, w) = handle_build_status now msg s.stats s.world in
      record s { stats = stats; world = w }
  step (binary_reported now msg) s =
      let (r, w) = handle_binary now msg s.world in record s { world = w }
  step (ir_reported now msg) s = let (r, w) = handle_ir now msg s.world in record s { world = w }
  step (scraped now bundle) s =
      let (r, pending, w) = handle_scrape accepts now bundle s.pending s.world in
      record s { pending = pending; world = w }
  step (builder_registered sends row msg) s =
      let h = handle_builder_registration sends row msg s.manager s.world in
      record s { manager = h.state; world = h.world }
  step (scraper_registered sends row msg correlation_id reply_queue) s =
      let h =
        handle_scraper_registration sends row msg correlation_id reply_queue s.registry s.world in
      record s { registry = h.state; world = h.world }

  unfoldable pub run : List Event → System → System
  unfolding step
  run [] s = s
  run (e ∷ es) s = run es (step e s)
