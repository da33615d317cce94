-- ===== src/Coordinator/Dispatcher.antt =====
-- `DispatcherService` of backend/assemblage/coordinator/dispatch.py: one iteration of one option's
-- dispatcher.
pub mod Steps
pub mod Keeping
use assemblage.Prelude.{
  ℕ, suc, ◌+◌, Bool, true, false, ltb, if◌then◌else◌, List, [], ◌∷◌, ◌++◌, Option, none, some, Text,
  codes, decimal, map,
}
use assemblage.Str.Replace.{replace}
use assemblage.Messages.{BuildTask}
use assemblage.Mq.Publisher.{
  Attempt, Published, delivered, publish_error, other_error, publish, copies,
}
use assemblage.Blocklist.{Blocklist}
use assemblage.Db.Session.{Result, ok, err, World}
use assemblage.Store.Dispatch.{DispatchCandidate, next_dispatchable, mark_clone_processing}
use assemblage.Coordinator.Starvation.{Signals, mark}

unfoldable pub patch_url : Text → Text
unfolding replace
patch_url url = replace (codes "api.") (codes "") (replace (codes "repos/") (codes "") url)

-- COORDINATOR_REPO_REQUEST_THRESHOLD, and the waits in milliseconds.
abbrev pub threshold : ℕ
threshold = 10

abbrev pub dispatch_interval : ℕ
dispatch_interval = 100

abbrev pub wait_after_req_interval : ℕ
wait_after_req_interval = 1000

-- The payload of `_encode`: the task's keys and two more.
pub record Payload : Type 0 where
  pub task : BuildTask
  pub output_dir : Text
  pub mod_timestamp : Text

unfoldable pub encode : BuildTask → Payload
encode task = record {
  task = task;
  output_dir = codes "/binaries/" ++ decimal task.task_id;
  mod_timestamp = codes "0";
}

unfoldable pub build_task : ℕ → DispatchCandidate → BuildTask
unfolding patch_url
build_task now c = record {
  name = c.name;
  url = patch_url c.url;
  task_id = c.task_id;
  opt_id = c.opt_id;
  repo_id = c.repo_id;
  updated_at = c.updated_at;
  build_system = c.build_system;
  msg_time = now;
  commit_hexsha = codes "";
  compiler_flag = c.compiler_flag;
}

-- What an iteration meets: the depth of the queue, if it can be had; the database's choice of a
-- row; the blocklist in force; how each attempt to publish ends, and whether the broker took the
-- message of one that it did not confirm; whether an exception of an attempt that is not tried again
-- is one of the broker's; the time.
pub record Env : Type 0 where
  pub depth : Option ℕ
  pub row : ℕ
  pub blocklist : Option Blocklist
  pub answer : ℕ → Attempt
  pub took : ℕ → Bool
  pub amqp_error : Bool
  pub now : ℕ

-- The service's counter, the messages whose publish returned, every copy of a message that the
-- broker took, with whether it confirmed it, the shared flags and the world.
pub record Dispatcher : Type 0 where
  pub opt_id : ℕ
  pub dispatched : ℕ
  pub sent : List Payload
  pub placed : List (Payload × Bool)
  pub signals : Signals
  pub world : World

-- An iteration waits and returns, or raises an error of the broker (`run` tries again), of the store
-- or another one of the publisher (the supervisor restarts the service).
pub data Step : Type 0 where
  waited : ℕ → Step
  broker_error store_error publisher_error : Step

after_mark : Result (Unit {0}) → Dispatcher → Step × Dispatcher
after_mark (err e) d = (store_error, d)
after_mark (ok u) d = (waited dispatch_interval, record d { dispatched = suc d.dispatched })

-- The `max_attempts` that the service's publisher has by default.
abbrev pub max_attempts : ℕ
max_attempts = 5

-- How the publish ends; the task is marked only when it returns.
after_publish : Env → DispatchCandidate → Dispatcher → Published → Step × Dispatcher
unfolding after_mark encode build_task
after_publish env c d delivered =
    let (r, w) = mark_clone_processing env.now c.task_id d.world in
    after_mark r (record d { sent = d.sent ++ encode (build_task env.now c) ∷ []; world = w })
after_publish env c d publish_error = (broker_error, d)
after_publish env c d other_error = (if env.amqp_error then broker_error else publisher_error, d)

-- The copies of a message, each with whether it is confirmed.
abbrev pub batch : Payload → List Bool → List (Payload × Bool)
batch p bs = map (λ (b : Bool). (p, b)) bs

-- The copies of the task that an iteration puts on the broker.
abbrev pub placed_now : Env → DispatchCandidate → List (Payload × Bool)
placed_now env c = batch (encode (build_task env.now c)) (copies max_attempts env.answer env.took)

send : Env → DispatchCandidate → Dispatcher → Step × Dispatcher
unfolding after_publish encode build_task publish copies
send env c d =
    after_publish env c (record d { placed = d.placed ++ placed_now env c })
      (publish max_attempts env.answer)

after_choice : Env → Result (Option DispatchCandidate) → Dispatcher → Step × Dispatcher
unfolding send
after_choice env (err e) d = (store_error, d)
after_choice env (ok none) d =
    (waited wait_after_req_interval, record d { signals = mark d.opt_id d.signals })
after_choice env (ok (some c)) d = send env c d

module _ (ilike : Text → Text → Bool) (strftime : Text → Text) where
  choose : Env → Dispatcher → Step × Dispatcher
  unfolding after_choice
  choose env d =
      let (r, w) = next_dispatchable ilike strftime env.row env.blocklist d.opt_id d.world in
      after_choice env r (record d { world = w })

  unfoldable pub dispatch_step : Env → Dispatcher → Step × Dispatcher
  unfolding choose
  dispatch_step env d = elim env.depth [
    | none ↦ (broker_error, d)
    | some depth ↦ if ltb threshold depth then (waited dispatch_interval, d) else choose env d
  ]
