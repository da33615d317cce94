-- ===== src/Scraper/Crawl/Bounds.antt =====
-- The cache never grows past a bundle while the broker confirms.
use assemblage.Prelude.{
  ◌<◌, ◌≡◌, refl, sym, subst, Bool, true, false, ◌&&◌, not, inl, inr, List, [], ◌∷◌, if◌then◌else◌,
  Bool-cases, arith,
}
use assemblage.Db.Query.{All}
use assemblage.Enums.{ScraperOutputPolicy, continuous, on_request}
use assemblage.Messages.{RepoRecord}
use assemblage.Mq.Publisher.{Published, delivered, publish_error, other_error}
use assemblage.Scraper.Bundler.{full, flush, flush_by, flush_bundle, add}
use assemblage.Scraper.Crawl.{
  Scraper, Ended, next, broken, Poll, Turn, handle, flushed, flush_cache, check_for_update,
  wait_for_request, ended, by_policy, on_fine, after_update, turn,
}
use assemblage.Scraper.Crawl.Keeping.{handle-Takes, flush_cache-Takes, check_for_update-Takes}

flush_by-empty :
    (answer : Published) (s : Scraper) (rs : List RepoRecord)
    → s.bundler.cache ≡ rs
    → (flushed (flush_by rs s.bundler answer) s).0 ≡ true
    → (flushed (flush_by rs s.bundler answer) s).1.bundler.cache ≡ []
unfolding flush_by flush_bundle flushed
flush_by-empty answer s [] e h = e
flush_by-empty delivered s (r ∷ rs) e h = refl
flush_by-empty publish_error s (r ∷ rs) e h = absurd (cc)
flush_by-empty other_error s (r ∷ rs) e h = absurd (cc)

flush_cache-empty :
    (answer : Published) (s : Scraper)
    → (flush_cache answer s).0 ≡ true
    → (flush_cache answer s).1.bundler.cache ≡ []
unfolding flush_cache flush
flush_cache-empty answer s = flush_by-empty answer s s.bundler.cache refl

-- The bundle has room.
abbrev pub HasRoom : Scraper → Type 0
HasRoom s = full s.bundler ≡ false

empty-HasRoom : (s : Scraper) → 0 < s.bundler.size → s.bundler.cache ≡ [] → HasRoom s
unfolding full
empty-HasRoom s h e = rw e (ground arith)

-- A result that is `next` leaves room.
abbrev Leaves : Ended × Scraper → Type 0
Leaves r = r.0 ≡ next → HasRoom r.1

ended-Leaves : (r : Bool × Scraper) → (r.0 ≡ true → HasRoom r.1) → Leaves (ended r)
unfolding ended
ended-Leaves (true, s) h e = h refl
ended-Leaves (false, s) h e = absurd (cc)

on_fine-Leaves :
    (k : Scraper → Ended × Scraper) (r : Bool × Scraper) → Leaves (k r.1) → Leaves (on_fine k r)
unfolding on_fine
on_fine-Leaves k (true, s) h = h
on_fine-Leaves k (false, s) h = λ e. absurd (cc)

wait-Leaves :
    (ps : List Poll) (s : Scraper)
    → All (λ (p : Poll). p.stopped ≡ false) ps
    → Leaves (wait_for_request ps s)
unfolding wait_for_request
wait-Leaves [] s h = by (full s.bundler) refl
  where
    by : (b : Bool) → full s.bundler ≡ b → Leaves (if b then Ended.waiting else next, s)
    by true e = λ f. absurd (cc)
    by false e = λ f. e
wait-Leaves (p ∷ ps) s (no_stop, h) = elim (Bool-cases (full s.bundler && not p.stopped)) [
  | inl e ↦ rw (e, wait_for_request) (on_fine-Leaves (wait_for_request ps) _ (wait-Leaves ps _ h))
  | inr e ↦ rw (e, wait_for_request) (λ f. ground (arith, no_stop))
]

by_policy-Leaves :
    (p : ScraperOutputPolicy) (t : Turn) (s : Scraper)
    → 0 < s.bundler.size
    → All (λ (p : Poll). p.stopped ≡ false) t.polls
    → Leaves (by_policy p t s)
unfolding by_policy
by_policy-Leaves on_request t s pos h = wait-Leaves t.polls s h
by_policy-Leaves continuous t s pos h = by (full s.bundler) refl
  where
    sent : Leaves (ended (flush_cache t.flush_answer s))
    sent = ended-Leaves (flush_cache t.flush_answer s) (λ e.
        empty-HasRoom (flush_cache t.flush_answer s).1
          (subst (λ n. 0 < n) (sym (flush_cache-Takes t.flush_answer s).2) pos)
          (flush_cache-empty t.flush_answer s e))

    by :
        (b : Bool)
        → full s.bundler ≡ b
        → Leaves (if b then ended (flush_cache t.flush_answer s) else (next, s))
    by true e = sent
    by false e = λ f. e

after_update-Leaves :
    (t : Turn) (s : Scraper)
    → 0 < s.bundler.size
    → All (λ (p : Poll). p.stopped ≡ false) t.polls
    → Leaves (after_update t s)
unfolding after_update
after_update-Leaves t s pos h =
    by_policy-Leaves _ t (handle t.arrived s)
      (subst (λ n. 0 < n) (sym (handle-Takes t.arrived s).2) pos) h

-- With bundles of at least one repository, a turn that is done, and in which nobody asked to stop,
-- leaves fewer repositories in the cache than a bundle has, however many it held before. A turn that
-- is not done was stopped, failed in a publish, or still waits for a request.
pub turn-HasRoom :
    (t : Turn) (s : Scraper)
    → 0 < s.bundler.size
    → All (λ (p : Poll). p.stopped ≡ false) t.polls
    → (turn t s).0 ≡ next
    → HasRoom (turn t s).1
unfolding turn add
turn-HasRoom t s pos h = by t.stopped
  where
    told : Bool × Scraper
    told = check_for_update t.current t.update_answer (record s { bundler = add t.repo s.bundler })

    size : told.1.bundler.size ≡ s.bundler.size
    size =
        (check_for_update-Takes t.current t.update_answer
          (record s { bundler = add t.repo s.bundler })).2

    by : (b : Bool) → Leaves (if b then (broken, s) else on_fine (after_update t) told)
    by true = λ e. absurd (cc)
    by false =
        on_fine-Leaves (after_update t) told
          (after_update-Leaves t told.1 (subst (λ n. 0 < n) (sym size) pos) h)
