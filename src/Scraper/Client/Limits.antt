-- ===== src/Scraper/Client/Limits.antt =====
-- A token whose limit is used up rests until its reset.
use assemblage.Prelude.{
  ℕ, zero, suc, ◌+◌, ◌-◌, ◌≤◌, ◌≡◌, ◌≢◌, refl, ◌⊎◌, inl, inr, min, ltb, list_eq, List, Option, Text,
  Bool-cases, arith,
}
use assemblage.Db.Query.{All}
use assemblage.Scraper.Client.{Entry, Client, sleep, sleep_rounds, sleep_and_update, Parsed}

-- The client has slept `n` seconds more, and nothing else has changed.
abbrev pub Slept : ℕ → Client → Client → Type 0
Slept n c c' =
    (c'.now ≡ c.now + n)
    × (c'.slept ≡ c.slept + n)
    × (c'.token ≡ c.token)
    × (c'.alternate_tokens ≡ c.alternate_tokens)

sleep_rounds-Slept :
    (fuel time_left : ℕ) (c : Client)
    → time_left ≤ fuel
    → Slept time_left c (sleep_rounds fuel time_left c)
unfolding sleep_rounds sleep
sleep_rounds-Slept zero time_left c h = (omega arith, omega arith, refl, refl)
sleep_rounds-Slept (suc fuel) time_left c h =
    let rest =
      sleep_rounds-Slept fuel (time_left - 60) (sleep (min 60 time_left) c) (omega arith) in
    elim (Bool-cases (ltb 0 time_left)) [
      | inl e ↦ rw e (omega (arith, rest.0), omega (arith, rest.1), rest.2, rest.3)
      | inr e ↦ let z : time_left ≡ 0 = ground arith in rw e (omega arith, omega arith, refl, refl)
    ]

-- The rounds of at most a minute add up to the duration.
pub sleep_and_update-Slept :
    (duration : ℕ) (c : Client) → Slept duration c (sleep_and_update duration c)
unfolding sleep_and_update
sleep_and_update-Slept duration c = sleep_rounds-Slept duration duration c (omega arith)

module _ (token : Option Text) (reset : ℕ) where
  -- The token is not in use, or its reset has come.
  abbrev pub Rests : Client → Type 0
  Rests c = (reset ≤ c.now) ⊎ (c.token ≢ token)

  -- In the table the token waits for its reset.
  abbrev Barred : List Entry → Type 0
  Barred es = All (λ (e : Entry). e.token ≡ token → e.timeout ≡ reset) es

  -- The token is the one in use, or barred in the table.
  abbrev IsUsedUp : Client → Type 0
  IsUsedUp c = (c.token ≡ token) ⊎ Barred c.alternate_tokens

  -- Of a used-up token: it stays so, and it rests if the sleep lasts until the reset.
  Settles : ℕ → Client → Client → Type 0
  Settles duration c c' = IsUsedUp c' × (reset ≤ c.now + duration → Rests c')

module _ (r : Parsed) where
  abbrev RestsIn : Client → Client → Type 0
  RestsIn c c' = Rests c.token r.rate_limit_reset_time c'
