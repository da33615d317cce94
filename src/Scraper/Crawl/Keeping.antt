-- ===== src/Scraper/Crawl/Keeping.antt =====
-- Every repository that the crawl takes is in a bundle that the broker confirmed or in the cache.
use assemblage.Prelude.{
  ℕ, ◌+◌, ◌≡◌, refl, sym, ap, ◌∙◌, Bool, true, false, ◌&&◌, not, ◌==◌, nat_eq, option_eq, some,
  if◌then◌else◌, inl, inr, List, [], ◌∷◌, ◌++◌, length, length-append, Bool-cases,
}
use mathlib.Core.List.{append_assoc, append-nil}
use assemblage.Enums.{ScraperOutputPolicy, continuous, on_request}
use assemblage.Messages.{RepoRecord, ScraperControlRequest}
use assemblage.Mq.Publisher.{Published, delivered, publish_error, other_error}
use assemblage.Scraper.Bundler.{add, full, flush, flush_by, flush_bundle}
use assemblage.Scraper.Crawl.{
  Scraper, Ended, next, broken, failed, waiting, Arrived, Poll, Turn, handle, flushed, flush_cache,
  synced, check_for_update, clear_request, cleared, answer_request, on_fine, on_next,
  wait_for_request, ended, by_policy, after_update, turn, crawl,
}

unfoldable pub concat : List (List RepoRecord) → List RepoRecord
concat [] = []
concat (xs ∷ xss) = xs ++ concat xss

concat-append :
    (xss : List (List RepoRecord)) (ys : List RepoRecord)
    → concat (xss ++ ys ∷ []) ≡ concat xss ++ ys
unfolding concat
concat-append [] ys = append-nil ys
concat-append (xs ∷ xss) ys = rw (concat-append xss ys) (sym (append_assoc xs (concat xss) ys))

-- What the broker has, then what waits.
abbrev pub collected : Scraper → List RepoRecord
collected s = concat s.bundles ++ s.bundler.cache

-- `_total_sent` is the number of repositories in the bundles.
abbrev pub IsCounted : Scraper → Type 0
IsCounted s = s.bundler.total_sent ≡ length (concat s.bundles)

-- From s to s' the repositories of `rs` are taken, and no other is lost or doubled.
abbrev pub Takes : List RepoRecord → Scraper → Scraper → Type 0
Takes rs s s' =
    (collected s' ≡ collected s ++ rs)
    × (IsCounted s → IsCounted s')
    × (s'.bundler.size ≡ s.bundler.size)

same : (s : Scraper) → Takes [] s s
same s = (sym (append-nil (collected s)), (λ h. h), refl)

then-Takes :
    (rs : List RepoRecord) (s s' s'' : Scraper) → Takes rs s s' → Takes [] s' s'' → Takes rs s s''
then-Takes rs s s' s'' (a, b, c) (d, e, f) =
    (d ∙ append-nil (collected s') ∙ a, (λ h. e (b h)), f ∙ c)

pub handle-Takes : (ms : Arrived) (s : Scraper) → Takes [] s (handle ms s)
unfolding handle
handle-Takes [] s = same s
handle-Takes ((id, msg) ∷ ms) s = handle-Takes ms _

flushed-Takes :
    (answer : Published) (s : Scraper) → Takes [] s (flushed (flush_bundle s.bundler answer) s).1
unfolding flush_bundle flushed
flushed-Takes delivered s = (
  append-nil (concat (s.bundles ++ s.bundler.cache ∷ []))
      ∙ concat-append s.bundles s.bundler.cache
      ∙ sym (append-nil (collected s)),
  (λ h.
      ap (λ n. n + length s.bundler.cache) h
      ∙ sym (length-append (concat s.bundles) s.bundler.cache)
      ∙ ap length (sym (concat-append s.bundles s.bundler.cache))),
  refl,
)
flushed-Takes publish_error s = same s
flushed-Takes other_error s = same s

flush_by-Takes :
    (answer : Published) (s : Scraper) (rs : List RepoRecord)
    → Takes [] s (flushed (flush_by rs s.bundler answer) s).1
unfolding flush_by flushed
flush_by-Takes answer s [] = same s
flush_by-Takes answer s (r ∷ rs) = flushed-Takes answer s

pub flush_cache-Takes : (answer : Published) (s : Scraper) → Takes [] s (flush_cache answer s).1
unfolding flush_cache flush
flush_cache-Takes answer s = flush_by-Takes answer s s.bundler.cache

cleared-Takes : (s : Scraper) (r : Bool × Scraper) → Takes [] s r.1 → Takes [] s (cleared r).1
unfolding cleared clear_request
cleared-Takes s (true, s') h = h
cleared-Takes s (false, s') h = h

answer_request-Takes : (answer : Published) (s : Scraper) → Takes [] s (answer_request answer s).1
unfolding answer_request
answer_request-Takes answer s = by s.controlled.control.bundle_requested
  where
    by : (b : Bool) → Takes [] s (if b then cleared (flush_cache answer s) else (true, s)).1
    by true = cleared-Takes s (flush_cache answer s) (flush_cache-Takes answer s)
    by false = same s

on_fine-Takes :
    (rs : List RepoRecord) (k : Scraper → Ended × Scraper) (s : Scraper) (r : Bool × Scraper)
    → ((s' : Scraper) → Takes [] s' (k s').1)
    → Takes rs s r.1
    → Takes rs s (on_fine k r).1
unfolding on_fine
on_fine-Takes rs k s (true, s') go h = then-Takes rs s s' (k s').1 h (go s')
on_fine-Takes rs k s (false, s') go h = h

wait-Takes : (ps : List Poll) (s : Scraper) → Takes [] s (wait_for_request ps s).1
unfolding wait_for_request
wait-Takes [] s = same s
wait-Takes (p ∷ ps) s = elim (Bool-cases (full s.bundler && not p.stopped)) [
  | inr e ↦ rw (e, wait_for_request) (same s)
  | inl e ↦
      rw (e, wait_for_request)
        (on_fine-Takes [] (wait_for_request ps) s (answer_request p.answer (handle p.arrived s))
          (wait-Takes ps)
          (then-Takes [] s (handle p.arrived s) (answer_request p.answer (handle p.arrived s)).1
            (handle-Takes p.arrived s) (answer_request-Takes p.answer (handle p.arrived s))))
]

ended-Takes : (s : Scraper) (r : Bool × Scraper) → Takes [] s r.1 → Takes [] s (ended r).1
unfolding ended
ended-Takes s r h = h

by_policy-Takes :
    (p : ScraperOutputPolicy) (t : Turn) (s : Scraper) → Takes [] s (by_policy p t s).1
unfolding by_policy
by_policy-Takes on_request t s = wait-Takes t.polls s
by_policy-Takes continuous t s = elim (Bool-cases (full s.bundler)) [
  | inl e ↦ rw e (ended-Takes s (flush_cache t.flush_answer s) (flush_cache-Takes t.flush_answer s))
  | inr e ↦ rw e (same s)
]

after_update-Takes : (t : Turn) (s : Scraper) → Takes [] s (after_update t s).1
unfolding after_update
after_update-Takes t s =
    then-Takes [] s (handle t.arrived s) (after_update t s).1 (handle-Takes t.arrived s)
      (by_policy-Takes _ t (handle t.arrived s))

synced-Takes :
    (current : ℕ) (msg : ScraperControlRequest) (answer : Published) (s : Scraper)
    → Takes [] s (synced current msg answer s).1
unfolding synced
synced-Takes current msg delivered s = same s
synced-Takes current msg publish_error s = same s
synced-Takes current msg other_error s = same s

pub check_for_update-Takes :
    (current : ℕ) (answer : Published) (s : Scraper)
    → Takes [] s (check_for_update current answer s).1
unfolding check_for_update
check_for_update-Takes current answer s =
    elim (Bool-cases (s.controlled.control.last_sent_crawltime == some current)) [
      | inl e ↦ rw e (same s)
      | inr e ↦ rw e (synced-Takes current _ answer s)
    ]

pub add-Takes :
    (repo : RepoRecord) (s : Scraper)
    → Takes (repo ∷ []) s (record s { bundler = add repo s.bundler })
unfolding add
add-Takes repo s =
    (sym (append_assoc (concat s.bundles) s.bundler.cache (repo ∷ [])), (λ h. h), refl)

-- A turn takes its repository unless the crawl was stopped before it.
abbrev pub taken : Turn → List RepoRecord
taken t = if t.stopped then [] else t.repo ∷ []

turn-Takes : (t : Turn) (s : Scraper) → Takes (taken t) s (turn t s).1
unfolding turn
turn-Takes t s = by t.stopped
  where
    s1 : Scraper
    s1 = record s { bundler = add t.repo s.bundler }

    tell : Bool × Scraper
    tell = check_for_update t.current t.update_answer s1

    by :
        (b : Bool)
        → Takes
            (if b then [] else t.repo ∷ [])
            s
            (if b then (broken, s) else on_fine (after_update t) tell).1
    by true = same s
    by false = on_fine-Takes (t.repo ∷ []) (after_update t) s tell (after_update-Takes t) (
        then-Takes (t.repo ∷ []) s s1 tell.1 (add-Takes t.repo s)
          (check_for_update-Takes t.current t.update_answer s1))

abbrev pub is_next : Ended → Bool
is_next next = true
is_next _ = false

then-Takes' :
    (xs ys : List RepoRecord) (s s' s'' : Scraper)
    → Takes xs s s'
    → Takes ys s' s''
    → Takes (xs ++ ys) s s''
then-Takes' xs ys s s' s'' (a, b, c) (d, e, f) =
    (d ∙ ap (λ l. l ++ ys) a ∙ append_assoc (collected s) xs ys, (λ h. e (b h)), f ∙ c)

-- The repositories of the turns, up to the first that is not done, with that one.
unfoldable pub pulled : List Turn → Scraper → List RepoRecord
pulled [] s = []
pulled (t ∷ ts) s =
    taken t ++ (let later = pulled ts (turn t s).1 in if is_next (turn t s).0 then later else [])

crawl-Takes : (ts : List Turn) (s : Scraper) → Takes (pulled ts s) s (crawl ts s).1
unfolding pulled crawl on_next
crawl-Takes [] s = same s
crawl-Takes (t ∷ ts) s = go (turn t s) (turn-Takes t s) (crawl-Takes ts (turn t s).1)
  where
    go :
        (r : Ended × Scraper)
        → Takes (taken t) s r.1
        → Takes (pulled ts r.1) r.1 (crawl ts r.1).1
        → Takes (taken t ++ (if is_next r.0 then pulled ts r.1 else [])) s (on_next (crawl ts) r).1
    go (next, s') h later = then-Takes' (taken t) (pulled ts s') s s' (crawl ts s').1 h later
    go (broken, s') h later = then-Takes' (taken t) [] s s' s' h (same s')
    go (failed, s') h later = then-Takes' (taken t) [] s s' s' h (same s')
    go (waiting, s') h later = then-Takes' (taken t) [] s s' s' h (same s')

-- Whatever the broker answers, whatever control messages arrive and however the crawl ends, the
-- bundles that the broker confirmed and then the cache hold what they held before and after it each
-- repository that the crawl took, once and in order. If `_total_sent` counted the bundles before, it
-- counts them afterwards.
pub crawl-collected :
    (ts : List Turn) (s : Scraper)
    → IsCounted s
    → (collected (crawl ts s).1 ≡ collected s ++ pulled ts s) × IsCounted (crawl ts s).1
crawl-collected ts s h = let (same_list, counts, _) = crawl-Takes ts s in (same_list, counts h)
