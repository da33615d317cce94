-- ===== src/Scraper/Crawl.antt =====
-- `CrawlService` of backend/assemblage/scraper/app.py: each repository is cached, the coordinator is
-- told when the window moves, and full bundles are sent by the policy.
pub mod Keeping
pub mod Bounds
use assemblage.Prelude.{
  ℕ, Bool, true, false, not, ◌&&◌, ◌==◌, nat_eq, option_eq, if◌then◌else◌, List, [], ◌∷◌, ◌++◌,
  Option, none, some, Text,
}
use assemblage.Enums.{ScraperMsgType, setup, update, ScraperOutputPolicy, continuous, on_request}
use assemblage.Messages.{RepoRecord, ScraperControlRequest, ScraperControlReply}
use assemblage.Mq.Publisher.{Published, delivered, publish_error, other_error}
use assemblage.Scraper.Bundler.{RepoBundler, Flushed, nothing, sent, raised, add, full, flush}
use assemblage.Scraper.Control.{Controlled, on_control}

-- The worker, with what the broker confirmed: the bundles, and the requests to the coordinator.
pub record Scraper : Type 0 where
  pub uuid : Text
  pub bundler : RepoBundler
  pub controlled : Controlled
  pub bundles : List (List RepoRecord)
  pub requests : List ScraperControlRequest

-- A repository is done with; the stop event ends the crawl; an exception ends it; or it still waits.
pub data Ended : Type 0 where
  next broken failed waiting : Ended

-- A control message with its correlation id.
abbrev pub Arrived : Type 0
Arrived = List (Option Text × ScraperControlReply)

-- The control consumer's thread handles messages while the crawl waits or works.
unfoldable pub handle : Arrived → Scraper → Scraper
unfolding on_control
handle [] s = s
handle ((id, msg) ∷ ms) s =
    handle ms (record s { controlled = (on_control s.uuid id msg s.controlled).1 })

-- The scraper after a flush: the broker has the bundle if one was sent.
unfoldable pub flushed : Flushed × RepoBundler → Scraper → Bool × Scraper
flushed (nothing, b) s = (true, record s { bundler = b })
flushed (sent bundle, b) s = (true, record s { bundler = b; bundles = s.bundles ++ bundle ∷ [] })
flushed (raised e, b) s = (false, record s { bundler = b })

unfoldable pub flush_cache : Published → Scraper → Bool × Scraper
unfolding flushed
flush_cache answer s = flushed (flush s.bundler answer) s

unfoldable pub synced : ℕ → ScraperControlRequest → Published → Scraper → Bool × Scraper
synced current msg delivered s = (
  true,
  record s {
    requests = s.requests ++ msg ∷ [];
    controlled = record s.controlled {
      control = record s.controlled.control { last_sent_crawltime = some current };
    };
  },
)
synced current msg publish_error s = (true, s)
synced current msg other_error s = (false, s)

-- `_check_for_update`
unfoldable pub check_for_update : ℕ → Published → Scraper → Bool × Scraper
unfolding synced
check_for_update current answer s =
    if s.controlled.control.last_sent_crawltime == some current
    then (true, s)
    else synced current
        (record {
          message_type = update;
          start_time = current;
          end_time = s.controlled.window.crawl_time_end;
        })
        answer s

-- One round of the loop that waits for a request: is the stop event set at its test, what arrives
-- while it sleeps, and what the broker answers if the bundle is sent.
pub record Poll : Type 0 where
  pub stopped : Bool
  pub arrived : Arrived
  pub answer : Published

unfoldable pub clear_request : Scraper → Scraper
clear_request s = record s {
  controlled = record s.controlled {
    control = record s.controlled.control { bundle_requested = false };
  };
}

-- After the sleep: a requested bundle is sent.
unfoldable pub cleared : Bool × Scraper → Bool × Scraper
unfolding clear_request
cleared (true, s) = (true, clear_request s)
cleared (false, s) = (false, s)

unfoldable pub answer_request : Published → Scraper → Bool × Scraper
unfolding flush_cache cleared
answer_request answer s =
    if s.controlled.control.bundle_requested then cleared (flush_cache answer s) else (true, s)

-- What follows if no exception was raised.
unfoldable pub on_fine : (Scraper → Ended × Scraper) → Bool × Scraper → Ended × Scraper
on_fine k (true, s) = k s
on_fine k (false, s) = (failed, s)

unfoldable pub wait_for_request : List Poll → Scraper → Ended × Scraper
unfolding answer_request handle full on_fine
wait_for_request [] s = (if full s.bundler then waiting else next, s)
wait_for_request (p ∷ ps) s = elim (full s.bundler && not p.stopped) [
  | true ↦ on_fine (wait_for_request ps) (answer_request p.answer (handle p.arrived s))
  | false ↦ (next, s)
]

-- One turn of the loop over the repositories, and what happens during it.
pub record Turn : Type 0 where
  pub repo : RepoRecord
  pub stopped : Bool
  pub current : ℕ
  pub update_answer : Published
  pub arrived : Arrived
  pub flush_answer : Published
  pub polls : List Poll

unfoldable pub ended : Bool × Scraper → Ended × Scraper
ended (fine, s) = (if fine then next else failed, s)

unfoldable pub by_policy : ScraperOutputPolicy → Turn → Scraper → Ended × Scraper
unfolding flush_cache full ended wait_for_request
by_policy continuous t s =
    if full s.bundler then ended (flush_cache t.flush_answer s) else (next, s)
by_policy on_request t s = wait_for_request t.polls s

unfoldable pub after_update : Turn → Scraper → Ended × Scraper
unfolding by_policy handle
after_update t s = by_policy (handle t.arrived s).controlled.control.policy t (handle t.arrived s)

unfoldable pub turn : Turn → Scraper → Ended × Scraper
unfolding on_fine after_update check_for_update add
turn t s =
    if t.stopped
    then (broken, s)
    else on_fine (after_update t)
        (check_for_update t.current t.update_answer (record s { bundler = add t.repo s.bundler }))

-- What follows if the turn is done.
unfoldable pub on_next : (Scraper → Ended × Scraper) → Ended × Scraper → Ended × Scraper
on_next k (next, s) = k s
on_next k (e, s) = (e, s)

-- `_crawl` over the turns so far.
unfoldable pub crawl : List Turn → Scraper → Ended × Scraper
unfolding turn on_next
crawl [] s = (next, s)
crawl (t ∷ ts) s = on_next (crawl ts) (turn t s)
