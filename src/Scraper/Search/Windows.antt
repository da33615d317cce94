-- ===== src/Scraper/Search/Windows.antt =====
-- The windows of a search meet, go down to the end of the crawl, and each asks for few pages.
use assemblage.Prelude.{
  ℕ, zero, suc, ◌+◌, ◌-◌, ◌≤◌, ◌<◌, ◌≡◌, refl, subst, true, ltb, inl, inr, List, [], ◌∷◌, Option,
  Text, length, Bool-cases, arith,
}
use assemblage.Scraper.Search.{
  PageAnswer, failed, no_items, items, total_after, more, fetch_pages, Query, Fetched, fetch_from,
  fetch_data, page_fuel, fetch_window, add_window, asked,
}

-- Each window ends where the one before it begins.
abbrev pub Tiles : ℕ → List Query → ℕ → Type 0
Tiles to [] last = to ≡ last
Tiles to (w ∷ ws) last = (w.to_time ≡ to) × Tiles w.from_time ws last

module _ (strptime : Text → Option Text) where
  IsSpanned : ℕ → ℕ → (ℕ → ℕ) → Fetched → Type 0
  IsSpanned current k ends r =
      (r.done ≡ true)
      × Tiles current r.windows r.current
      × ((n : ℕ) → n ≡ k + length r.windows → r.current ≤ ends n)

  fetch_from-done :
      (fuel k interval : ℕ) (ends : ℕ → ℕ) (answer : ℕ → ℕ → PageAnswer) (current : ℕ)
      → 0 < interval
      → ((k : ℕ) → interval ≤ ends k)
      → current ≤ fuel
      → IsSpanned current k ends (fetch_from strptime fuel k interval ends answer current)
  unfolding fetch_from add_window IsSpanned
  fetch_from-done zero k interval ends answer current pos low le =
      (ground arith, refl, λ n e. omega arith)
  fetch_from-done (suc fuel) k interval ends answer current pos low le =
      let l = low k in
      let rest =
        fetch_from-done fuel (suc k) interval ends answer (current - interval) pos low
          (omega arith) in
      elim (Bool-cases (ltb (ends k) current)) [
        | inl e ↦
            let lt : ends k < current = ground arith in
            rw e (rest.0, (omega (arith, lt, l), rest.1), λ n h. rest.2 n (omega (arith, h)))
        | inr e ↦
            let ge : current ≤ ends k = ground arith in
            rw e (refl, refl, λ n h. subst (λ m. current ≤ ends m) (omega (arith, h)) ge)
      ]

  total_after-le : (a : PageAnswer) (total : ℕ) → total_after a total ≤ total
  total_after-le failed total = omega arith
  total_after-le no_items total = omega arith
  total_after-le (items count is) total = omega arith

  fetch_pages-done :
      (fuel next total : ℕ) (answer : ℕ → PageAnswer)
      → total ≤ 999
      → 11 ≤ next + fuel
      → ((fetch_pages strptime fuel next total answer).done ≡ true)
        × (length (fetch_pages strptime fuel next total answer).requests ≤ fuel)
  unfolding fetch_pages more asked
  fetch_pages-done zero zero total answer h e = absurd (omega arith)
  fetch_pages-done zero (suc next) total answer h e = (ground arith, omega arith)
  fetch_pages-done (suc fuel) next total answer h e =
      let rest =
        fetch_pages-done fuel (suc next) (total_after (answer next) total) answer
          (omega (arith, total_after-le (answer next) total)) (omega arith) in
      elim (Bool-cases (more next total)) [
        | inl f ↦ rw f (rest.0, omega (arith, rest.1))
        | inr f ↦ rw f (refl, omega arith)
      ]

  -- If `crawl_time_end` is never below the interval, which is positive, a search ends, with as many
  -- rounds as there are seconds for fuel. Its windows meet, each ending where the one before begins,
  -- from the start of the crawl to `current_crawl_time`, which is then not after `crawl_time_end` as
  -- the last test read it. So no time between the two is left out, although another thread may move
  -- the end meanwhile.
  pub fetch_data-Tiles :
      (fuel crawl_time_start interval : ℕ) (ends : ℕ → ℕ) (answer : ℕ → ℕ → PageAnswer)
      → 0 < interval
      → ((k : ℕ) → interval ≤ ends k)
      → crawl_time_start ≤ fuel
      → ((fetch_data strptime fuel crawl_time_start interval ends answer).done ≡ true)
        × Tiles crawl_time_start
            (fetch_data strptime fuel crawl_time_start interval ends answer).windows
            (fetch_data strptime fuel crawl_time_start interval ends answer).current
        × ((fetch_data strptime fuel crawl_time_start interval ends answer).current
            ≤ ends
                (length (fetch_data strptime fuel crawl_time_start interval ends answer).windows))
  unfolding fetch_data IsSpanned
  fetch_data-Tiles fuel start interval ends answer pos low le =
      let (a, b, c) = fetch_from-done fuel 0 interval ends answer start pos low le in
      (a, b, c _ (omega arith))

  -- The loop over the pages of a window ends by its test, after at most 11 requests, whatever counts
  -- GitHub answers and however many requests fail.
  pub fetch_window-bounds :
      (answer : ℕ → PageAnswer)
      → ((fetch_window strptime answer).done ≡ true)
        × (length (fetch_window strptime answer).requests ≤ 11)
  unfolding fetch_window
  fetch_window-bounds answer = fetch_pages-done page_fuel 0 999 answer (omega arith) (omega arith)
