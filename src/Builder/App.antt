-- ===== src/Builder/App.antt =====
-- backend/assemblage/builder/app.py: the registration of a builder, and the handler of its tasks.
use assemblage.Prelude.{
  ℕ, suc, ◌≡◌, refl, Bool, true, false, leb, ◌==◌, nat_eq, list_eq, option_eq, if◌then◌else◌, [],
  Option, none, some, Text, codes, arith, inl, inr, Bool-cases,
}
use assemblage.Enums.{SupportedLanguage, cpp, rust}
use assemblage.Messages.{BuilderRegistration, BuilderRegistered, BuildTask, default_queue}
use assemblage.Mq.Topology.{build_opt_queue}
use assemblage.Mq.Consumer.{IncomingMessage, Outcome, returned, raised, ack, requeue}

abbrev pub recycle_after_tasks : ℕ
recycle_after_tasks = 1000

-- The settings and the strategy, as far as the registration names them.
pub record Settings : Type 0 where
  pub name : Text
  pub compiler : Text
  pub library : Text
  pub language : SupportedLanguage
  pub language_value : Text
  pub build_os : Text
  pub compiler_flag : Text
  pub codegen_backend : Text
  pub strategy_build_mode : Text

backend_of : SupportedLanguage → Text → Text
backend_of rust backend = backend
backend_of cpp backend = []

unfoldable pub registration : Settings → Text → BuilderRegistration
unfolding backend_of
registration s uuid = record {
  name = s.name;
  uuid = uuid;
  compiler = s.compiler;
  library = s.library;
  language = s.language_value;
  platform = s.build_os;
  compiler_flag = s.compiler_flag;
  build_command = [];
  build_system = codes "all";
  codegen_backend = backend_of s.language s.codegen_backend;
  build_mode = s.strategy_build_mode;
}

-- The option that the coordinator assigns, once the handler of `_register` has it.
pub record Assigned : Type 0 where
  pub opt_id : ℕ
  pub build_opt_queue_name : Text
  pub done : Bool

queue_or_default : BuilderRegistered → Text
unfolding build_opt_queue
queue_or_default m = elim m.build_opt_queue_name [
  | none ↦ (build_opt_queue m.build_opt_id).name
  | some q ↦ q
]

-- `decode` stands for the validation of the message, none if it raises.
on_reply : Option BuilderRegistered → Assigned → Outcome × Assigned
unfolding queue_or_default default_queue
on_reply none a = (raised, a)
on_reply (some m) a = (
  returned ack,
  record {
    opt_id = m.build_opt_id;
    build_opt_queue_name = queue_or_default (default_queue m);
    done = true;
  },
)

pub register_handler :
    (Text → Option BuilderRegistered) → Text → IncomingMessage → Assigned → Outcome × Assigned
unfolding on_reply
register_handler decode uuid incoming a =
    if incoming.correlation_id == some uuid
    then on_reply (decode incoming.body) a
    else (returned requeue, a)

-- The builder between tasks: how many are done, the exit code asked of the supervisor, and what the
-- tasks work on.
pub record Builder {ℓ} (W : Type ℓ) : Type ℓ where
  pub processed : ℕ
  pub shutdown : Option ℕ
  pub work : W

module _ {ℓ} {W : Type ℓ} (decode : Text → Option BuildTask)
    (run_task : BuildTask → W → Bool × W) where
  -- After `run_task`: it may raise, and then the task is not counted.
  count : Bool × W → Builder W → Outcome × Builder W
  count (false, w) b = (raised, record b { work = w })
  count (true, w) b = (
    returned ack,
    record {
      processed = suc b.processed;
      shutdown = if leb recycle_after_tasks (suc b.processed) then some 0 else b.shutdown;
      work = w;
    },
  )

  decoded : Option BuildTask → Builder W → Outcome × Builder W
  unfolding count
  decoded none b = (raised, b)
  decoded (some task) b = count (run_task task b.work) b

  unfoldable pub handle_task : IncomingMessage → Builder W → Outcome × Builder W
  unfolding decoded
  handle_task incoming b = decoded (decode incoming.body) b

  -- A builder is asked to end, with exit code 0, from its thousandth finished task on, and not before.
  abbrev pub IsRecycled : Builder W → Type 0
  IsRecycled b = b.shutdown ≡ (if leb recycle_after_tasks b.processed then some 0 else none)

  count-IsRecycled : (r : Bool × W) (b : Builder W) → IsRecycled b → IsRecycled (count r b).1
  unfolding count
  count-IsRecycled (false, w) b h = h
  count-IsRecycled (true, w) b h = elim (Bool-cases (leb 1000 (suc b.processed))) [
    | inl e ↦ rw e refl
    | inr e ↦ let below : leb 1000 b.processed ≡ false = ground arith in rw (e, h, below) refl
  ]

  handle_task-IsRecycled :
      (incoming : IncomingMessage) (b : Builder W)
      → IsRecycled b
      → IsRecycled (handle_task incoming b).1
  unfolding handle_task decoded
  handle_task-IsRecycled incoming b h = by (decode incoming.body)
    where
      by : (t : Option BuildTask) → IsRecycled (decoded t b).1
      by none = h
      by (some task) = count-IsRecycled (run_task task b.work) b h
