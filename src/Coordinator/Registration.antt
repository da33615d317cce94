-- ===== src/Coordinator/Registration.antt =====
-- backend/assemblage/coordinator/registration.py, with the closures that coordinator/app.py gives
-- to the handlers: the reply, which may raise, the start of a dispatcher, the scraper's registry.
pub mod Keeping
use assemblage.Prelude.{
  ℕ, ◌≡◌, refl, Bool, true, false, ◌==◌, nat_eq, list_eq, contains, if◌then◌else◌, List, [], ◌∷◌,
  ◌++◌, Option, none, some, Text, codes,
}
use assemblage.Enums.{ScraperMsgType}
use assemblage.Messages.{
  BuilderRegistration, BuilderRegistered, default_queue, ScraperControlRequest, ScraperControlReply,
}
use assemblage.Prelude.{ℤ, negsuc}
use assemblage.Mq.Consumer.{AckDecision, ack}
use assemblage.Db.Session.{Action, Result, ok, err, Failure, database_error, World}
use assemblage.Store.Options.{register_build_opt}
use assemblage.Store.Scrapers.{Window, register_scraper, update_scraper}
use assemblage.Coordinator.Manager.{Manager, ensure_started}

-- The reply queues of the registered scrapers.
abbrev pub Registry : Type 0
Registry = List Text

unfoldable pub register : Text → Registry → Registry
register queue_name queues =
    if contains queues queue_name then queues else queues ++ queue_name ∷ []

-- What a handler leaves: its decision or that it raised, and the replies that it sent.
pub record Handled (S Reply : Type 0) : Type 0 where
  pub decision : Option AckDecision
  pub replies : List Reply
  pub state : S
  pub world : World

unfoldable pub builder_reply : ℕ → BuilderRegistered
builder_reply opt_id = default_queue (record { build_opt_id = opt_id; build_opt_queue_name = none })

-- `sends`: the reply is confirmed; else publishing it raises.
after_register : Bool → Manager → Result ℕ → World → Handled Manager BuilderRegistered
unfolding builder_reply ensure_started
after_register sends m (err e) w = record { decision = none; replies = []; state = m; world = w }
after_register true m (ok opt_id) w = record {
  decision = some ack;
  replies = builder_reply opt_id ∷ [];
  state = ensure_started opt_id m;
  world = w;
}
after_register false m (ok opt_id) w = record {
  decision = none;
  replies = [];
  state = m;
  world = w;
}

unfoldable pub handle_builder_registration :
    Bool → ℕ → BuilderRegistration → Manager → World → Handled Manager BuilderRegistered
unfolding after_register
handle_builder_registration sends row msg m w =
    let (r, w') = register_build_opt row msg w in after_register sends m r w'

or_blank : Option Text → Text
or_blank none = codes ""
or_blank (some t) = t

setup_reply : Window → ScraperControlReply
setup_reply c = record {
  message_type = ScraperMsgType.setup;
  start_time = some c.start_time;
  end_time = some c.end_time;
  policy = none;
  request_amount = negsuc 0;
  specific_recipient = true;
  qualifiers = none;
}

update_reply : ScraperControlReply
update_reply = record {
  message_type = ScraperMsgType.update;
  start_time = none;
  end_time = none;
  policy = none;
  request_amount = negsuc 0;
  specific_recipient = true;
  qualifiers = none;
}

failed_handler : Registry → World → Handled Registry ScraperControlReply
failed_handler q w = record { decision = none; replies = []; state = q; world = w }

after_setup : Bool → Text → Registry → Result Window → World → Handled Registry ScraperControlReply
unfolding setup_reply failed_handler register
after_setup sends reply_queue q (err e) w = failed_handler q w
after_setup true reply_queue q (ok c) w = record {
  decision = some ack;
  replies = setup_reply c ∷ [];
  state = register reply_queue q;
  world = w;
}
after_setup false reply_queue q (ok c) w = failed_handler q w

after_sync : Bool → Registry → Result (Unit {0}) → World → Handled Registry ScraperControlReply
unfolding update_reply failed_handler
after_sync sends q (err e) w = failed_handler q w
after_sync true q (ok u) w = record {
  decision = some ack;
  replies = update_reply ∷ [];
  state = q;
  world = w;
}
after_sync false q (ok u) w = failed_handler q w

is_setup : ScraperMsgType → Bool
is_setup ScraperMsgType.setup = true
is_setup _ = false

unfoldable pub handle_scraper_registration :
    Bool
    → ℕ
    → ScraperControlRequest
    → Option Text
    → Text
    → Registry
    → World
    → Handled Registry ScraperControlReply
unfolding after_setup after_sync is_setup or_blank
handle_scraper_registration sends row msg correlation_id reply_queue q w =
    let uuid = or_blank correlation_id in
    if is_setup msg.message_type
    then (let (r, w') = register_scraper row uuid msg.start_time msg.end_time w in
        after_setup sends reply_queue q r w')
    else (let (r, w') = update_scraper row uuid msg.start_time msg.end_time w in
        after_sync sends q r w')
