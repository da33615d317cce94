-- ===== src/Scraper/Client/Tokens.antt =====
-- What a request returns, and what becomes of a token that GitHub refuses.
use assemblage.Prelude.{
  ℕ, ◌+◌, ◌≡◌, refl, inl, inr, Bool, true, false, not, ◌&&◌, ltb, ◌==◌, nat_eq, list_eq, option_eq,
  if◌then◌else◌, List, [], ◌∷◌, none, some, Text,
}
use assemblage.Db.Query.{Has}
use assemblage.Scraper.Client.{
  Entry, Client, set_token, set_token_timeout, timed_out, available, cycle_through, cycle_token,
  sleep_and_update, Parsed, Response, exception, not_found, unauthorized, no_rate_limit, no_json,
  parsed, nothing, unanswered, response, wait_if, limit_reached, secondary_limit, primary_limit,
  after_limits, retry_seconds, Next, retry, finish, on_response, retry_with, get_request,
}

-- A finished request has no response, or this one.
IsOf : Response → Next → Type 0
IsOf a (finish (response r)) = (a ≡ parsed r) × (r.ok ≡ true)
IsOf a _ = Unit

result-IsOf :
    (r : Parsed) (ok : Bool)
    → r.ok ≡ ok
    → IsOf (parsed r) (finish (if ok then response r else nothing))
unfolding IsOf
result-IsOf r true e = (refl, e)
result-IsOf r false e = tt

after_limits-IsOf :
    (receipt : ℕ) (r : Parsed) (c : Client) → IsOf (parsed r) (after_limits receipt r c).0
unfolding after_limits IsOf
after_limits-IsOf receipt r c =
    by (r.remaining_rate_limit == 0 && not r.ok) (ltb 0 (retry_seconds receipt c.now r.retry_after))
  where
    slept : Client
    slept = sleep_and_update (retry_seconds receipt c.now r.retry_after + 1) c

    Result : Bool → Bool → Next × Client
    Result limited again =
        if limited
        then (retry, c)
        else if again
        then (retry, slept)
        else (finish (if r.ok then response r else nothing), c)

    by : (limited again : Bool) → IsOf (parsed r) (Result limited again).0
    by true again = tt
    by false true = tt
    by false false = result-IsOf r r.ok refl

on_response-IsOf : (a : Response) (c : Client) → IsOf a (on_response a c).0
unfolding on_response IsOf
on_response-IsOf exception c = tt
on_response-IsOf not_found c = tt
on_response-IsOf unauthorized c = tt
on_response-IsOf no_rate_limit c = tt
on_response-IsOf no_json c = tt
on_response-IsOf (parsed r) c = after_limits-IsOf c.now r _

-- What a request returns is an answer that GitHub gave to it or to one of its retries, and one with a
-- status that is not an error.
pub get_request-IsOk :
    (rs : List Response) (c : Client) (r : Parsed)
    → (get_request rs c).0 ≡ response r
    → Has (parsed r) rs × (r.ok ≡ true)
unfolding get_request retry_with IsOf
get_request-IsOk [] c r e = absurd (cc)
get_request-IsOk (a ∷ rs) c r e =
    by (on_response a c) (on_response-IsOf a c) (get_request-IsOk rs (on_response a c).1 r) e
  where
    by :
        (n : Next × Client)
        → IsOf a n.0
        → ((get_request rs n.1).0 ≡ response r → Has (parsed r) rs × (r.ok ≡ true))
        → (retry_with (get_request rs) n).0 ≡ response r
        → Has (parsed r) (a ∷ rs) × (r.ok ≡ true)
    by (retry, c') h later e = let (has, ok) = later e in (inr has, ok)
    by (finish nothing, c') h later e = absurd (cc)
    by (finish unanswered, c') h later e = absurd (cc)
    by (finish (response q), c') (h, ok) later e = let p : q ≡ r = cc in (inl (cc), cc)

-- A token that GitHub refuses with 401 comes back: if it is the first of the table and has no timeout,
-- the next answer that says that no request is left makes it the client's token again, without a
-- sleep, so the next retry is refused again.
pub unauthorized_returns :
    (c : Client) (bad : Text) (es : List Entry) (r : Parsed)
    → c.do_cycle_tokens ≡ true
    → c.alternate_tokens ≡ record { token = some bad; timeout = 0 } ∷ es
    → r.remaining_rate_limit ≡ 0
    → r.secondary ≡ false
    → ((on_response unauthorized c).1.token ≡ none)
      × ((primary_limit r (secondary_limit r (on_response unauthorized c).1)).token ≡ some bad)
      × ((primary_limit r (secondary_limit r (on_response unauthorized c).1)).slept ≡ c.slept)
unfolding on_response primary_limit secondary_limit set_token limit_reached cycle_token
    set_token_timeout cycle_through available wait_if timed_out nat_eq option_eq list_eq
unauthorized_returns c bad es r cycles first z plain =
    (refl, rw (z, plain, cycles, first) refl, rw (z, plain, cycles, first) refl)
