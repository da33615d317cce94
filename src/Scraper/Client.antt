-- ===== src/Scraper/Client.antt =====
-- `GitHubClient` of backend/assemblage/scraper/github.py: tokens, sleeping, and the request that waits
-- for rate limits. Times are whole seconds; the clock moves only while the client sleeps. What GitHub
-- answers to each request is an argument, and the time a request took is not modelled.
pub mod Limits
pub mod Tokens
use assemblage.Prelude.{
  ℕ, zero, suc, ◌+◌, ◌-◌, ◌*◌, min, Bool, true, false, not, ◌||◌, ◌&&◌, ltb, leb, ◌==◌, nat_eq,
  list_eq, option_eq, if◌then◌else◌, List, [], ◌∷◌, ◌++◌, map, Option, none, some, Text,
}

pub record Entry : Type 0 where
  pub token : Option Text
  pub timeout : ℕ

pub record Client : Type 0 where
  pub token : Option Text
  pub do_cycle_tokens : Bool
  pub alternate_tokens : List Entry
  pub now : ℕ
  pub slept : ℕ

abbrev rate_limit_wait : ℕ
rate_limit_wait = 60

abbrev secondary_rate_limit_wait : ℕ
secondary_rate_limit_wait = 120

abbrev pub rate_limit_update_interval : ℕ
rate_limit_update_interval = 60

unfoldable pub set_token : Option Text → Client → Client
set_token token c = record c { token = token }

unfoldable pub timed_out : Option Text → ℕ → Entry → Entry
timed_out token timeout e = if e.token == token then record e { timeout = timeout } else e

unfoldable pub set_token_timeout : ℕ → Client → Client
unfolding timed_out
set_token_timeout timeout c = record c {
  alternate_tokens = map (timed_out c.token timeout) c.alternate_tokens;
}

-- May an entry be used at this time?
unfoldable pub available : ℕ → Entry → Bool
available now e = e.timeout == 0 || leb e.timeout now

-- 1 is `true`: the first entry that may be used is taken.
unfoldable pub cycle_through : List Entry → Client → Bool × Client
unfolding available set_token
cycle_through [] c = (false, c)
cycle_through (e ∷ es) c =
    let rest = cycle_through es c in if available c.now e then (true, set_token e.token c) else rest

unfoldable pub cycle_token : Client → Bool × Client
unfolding cycle_through
cycle_token c = cycle_through c.alternate_tokens c

abbrev fresh : Option Text → Entry
fresh token = record { token = token; timeout = 0 }

own_entry : Option Text → List Entry
own_entry none = []
own_entry (some t) = fresh (some t) ∷ []

-- `__init__`: the token first, then the table of tokens.
unfoldable pub make_client : Option Text → List Text → ℕ → Client
unfolding own_entry
make_client token [] now = record {
  token = token;
  do_cycle_tokens = false;
  alternate_tokens = fresh token ∷ [];
  now = now;
  slept = 0;
}
make_client token (a ∷ alternates) now = record {
  token = token;
  do_cycle_tokens = true;
  alternate_tokens = own_entry token ++ map (λ (t : Text). fresh (some t)) (a ∷ alternates);
  now = now;
  slept = 0;
}

unfoldable pub sleep : ℕ → Client → Client
sleep n c = record c { now = c.now + n; slept = c.slept + n }

-- The loop of `sleep_and_update`, with fuel for its rounds. A negative duration is 0 here: neither
-- sleeps.
unfoldable pub sleep_rounds : ℕ → ℕ → Client → Client
unfolding sleep
sleep_rounds zero time_left c = c
sleep_rounds (suc fuel) time_left c =
    let c' = sleep (min rate_limit_update_interval time_left) c in
    let rest = sleep_rounds fuel (time_left - rate_limit_update_interval) c' in
    if ltb 0 time_left then rest else c

unfoldable pub sleep_and_update : ℕ → Client → Client
unfolding sleep_rounds
sleep_and_update duration c = sleep_rounds duration duration c

-- What GitHub answers: the request raises; the status is 404 or 401; a rate-limit header is missing
-- or no number; the body is no JSON; or all of that is there.
pub record Parsed : Type 0 where
  pub remaining_rate_limit : ℕ
  pub rate_limit_reset_time : ℕ
  pub secondary : Bool
  pub retry_after : Option (Option ℕ)
  pub ok : Bool
  pub text : Text

pub data Response : Type 0 where
  exception not_found unauthorized no_rate_limit no_json : Response
  parsed : Parsed → Response

-- A response, or None; or GitHub has not answered yet.
pub data Requested : Type 0 where
  nothing unanswered : Requested
  response : Parsed → Requested

-- Another token, or a sleep.
unfoldable pub wait_if : ℕ → Bool × Client → Client
unfolding sleep_and_update
wait_if duration (true, c) = c
wait_if duration (false, c) = sleep_and_update duration c

unfoldable pub limit_reached : ℕ → ℕ → Client → Client
unfolding cycle_token set_token_timeout wait_if
limit_reached reset duration c =
    wait_if duration
      (if c.do_cycle_tokens then cycle_token (set_token_timeout reset c) else (false, c))

unfoldable pub secondary_limit : Parsed → Client → Client
unfolding limit_reached
secondary_limit r c =
    if r.secondary then limit_reached r.rate_limit_reset_time secondary_rate_limit_wait c else c

unfoldable pub primary_limit : Parsed → Client → Client
unfolding limit_reached
primary_limit r c =
    if r.remaining_rate_limit == 0
    then limit_reached r.rate_limit_reset_time (r.rate_limit_reset_time + 1 - c.now) c
    else c

-- `Retry-After`: the seconds to sleep, none if it is not given. What is left of it after the sleeps
-- since `receipt`, or one minute where it is no number.
unfoldable pub retry_seconds : ℕ → ℕ → Option (Option ℕ) → ℕ
retry_seconds receipt now none = 0
retry_seconds receipt now (some none) = rate_limit_wait - (now - receipt)
retry_seconds receipt now (some (some n)) = n - (now - receipt)

-- What is done with a parsed answer: retry, or the result.
pub data Next : Type 0 where
  retry : Next
  finish : Requested → Next

unfoldable pub after_limits : ℕ → Parsed → Client → Next × Client
unfolding retry_seconds sleep_and_update
after_limits receipt r c =
    if r.remaining_rate_limit == 0 && not r.ok
    then (retry, c)
    else if ltb 0 (retry_seconds receipt c.now r.retry_after)
    then (retry, sleep_and_update (retry_seconds receipt c.now r.retry_after + 1) c)
    else (finish (if r.ok then response r else nothing), c)

unfoldable pub on_response : Response → Client → Next × Client
unfolding after_limits primary_limit secondary_limit set_token
on_response exception c = (finish nothing, c)
on_response not_found c = (finish nothing, c)
on_response unauthorized c = (retry, set_token none c)
on_response no_rate_limit c = (finish nothing, c)
on_response no_json c = (finish nothing, c)
on_response (parsed r) c = after_limits c.now r (primary_limit r (secondary_limit r c))

unfoldable pub retry_with : (Client → Requested × Client) → Next × Client → Requested × Client
retry_with again (retry, c) = again c
retry_with again (finish r, c) = (r, c)

-- `get_request`, with what GitHub answers to it and to each retry.
unfoldable pub get_request : List Response → Client → Requested × Client
unfolding on_response retry_with
get_request [] c = (unanswered, c)
get_request (r ∷ rs) c = retry_with (get_request rs) (on_response r c)
