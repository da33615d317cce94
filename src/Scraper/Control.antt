-- ===== src/Scraper/Control.antt =====
-- `CrawlControl` and `_on_control` of backend/assemblage/scraper/app.py, with the parameters of
-- `GitHubRepoSearch` that a control message sets. A set of qualifiers is the list that it is made of.
use assemblage.Prelude.{
  ℕ, Bool, true, not, ◌&&◌, ◌==◌, list_eq, nat_eq, option_eq, if◌then◌else◌, List, Option, none,
  some, Text,
}
use assemblage.Enums.{ScraperMsgType, setup, update, request_repos, ScraperOutputPolicy}
use assemblage.Messages.{ScraperControlReply}
use assemblage.Mq.Consumer.{AckDecision, ack, requeue}

pub record CrawlControl : Type 0 where
  pub ready : Bool
  pub bundle_requested : Bool
  pub policy : ScraperOutputPolicy
  pub last_sent_crawltime : Option ℕ

-- The window that is searched, backwards from `crawl_time_start` to `crawl_time_end`.
pub record Window : Type 0 where
  pub crawl_time_start : ℕ
  pub crawl_time_end : ℕ
  pub qualifiers : List Text

pub record Controlled : Type 0 where
  pub control : CrawlControl
  pub window : Window

abbrev set_start : ScraperMsgType → ℕ → Controlled → Controlled
set_start setup t s = record {
  control = record s.control { last_sent_crawltime = some t };
  window = record s.window { crawl_time_start = t };
}
set_start _ t s = record s { window = record s.window { crawl_time_start = t } }

abbrev given {ℓ} : {A : Type ℓ} → Option A → (A → Controlled → Controlled) → Controlled → Controlled
given none f s = s
given (some a) f s = f a s

-- SETUP and UPDATE: what the message names is set, in the order of the code.
configure : ScraperControlReply → Controlled → Controlled
configure msg s =
    let s1 = given msg.start_time (set_start msg.message_type) s in
    let s2 =
      given msg.end_time (λ t s. record s { window = record s.window { crawl_time_end = t } }) s1 in
    let s3 = given msg.policy (λ p s. record s { control = record s.control { policy = p } }) s2 in
    let s4 =
      given msg.qualifiers (λ q s. record s { window = record s.window { qualifiers = q } }) s3 in
    record s4 { control = record s4.control { ready = true } }

accept : ScraperControlReply → ScraperMsgType → Controlled → Controlled
unfolding configure
accept msg setup s = configure msg s
accept msg update s = configure msg s
accept msg request_repos s = record s { control = record s.control { bundle_requested = true } }

-- A message for one scraper goes back to the queue in another.
unfoldable pub on_control :
    Text → Option Text → ScraperControlReply → Controlled → AckDecision × Controlled
unfolding accept
on_control uuid correlation_id msg s =
    if msg.specific_recipient && not (correlation_id == some uuid)
    then (requeue, s)
    else (ack, accept msg msg.message_type s)
