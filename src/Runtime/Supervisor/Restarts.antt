-- ===== src/Runtime/Supervisor/Restarts.antt =====
-- When a service is run again, and how long that is put off.
use assemblage.Prelude.{
  not, if◌then◌else◌, Option, Option-cases, inl, inr, ℕ, suc, ◌<◌, ◌≡◌, refl, true, false, ◌||◌,
  List, [], ◌∷◌, ◌++◌, map, length, arith,
}
use assemblage.Db.Query.{All}
use assemblage.Runtime.Service.{RestartPolicy, delay, until_none, all_some}
use assemblage.Runtime.Supervisor.{Turn, counted, supervise, restarted}

-- Nobody asks to stop, and the service does not stay up for long.
abbrev pub IsCrash : RestartPolicy → Turn → Type 0
IsCrash policy t =
    (t.stopped ≡ false)
    × (t.stopped_in_run ≡ false)
    × (t.stopped_in_wait ≡ false)
    × (t.ran < policy.reset_after)

-- n, n + 1, …
abbrev pub counting : ℕ → List Turn → List ℕ
counting n [] = []
counting n (t ∷ ts) = n ∷ counting (suc n) ts

-- The event is seen in this turn.
abbrev pub IsStop : Turn → Type 0
IsStop t = (t.stopped || t.stopped_in_run || t.stopped_in_wait) ≡ true

module _ (power : ℕ → ℕ → Option ℕ) (perturb : ℕ → ℕ → ℕ) (policy : RestartPolicy) where
  -- The delays of the attempts from n on.
  abbrev pub delays : ℕ → List Turn → List (Option ℕ)
  delays n ts = map (delay power perturb policy.backoff) (counting n ts)

  -- From attempt n on, a service that keeps ending early, while nobody asks to stop, waits the delays
  -- of attempts n, n + 1 and so on. If they can all be computed it is run every time and its thread
  -- goes on. At the first that overflows the thread dies, and the service is not run again although
  -- its policy is to restart.
  pub supervise-delays :
      (ts : List Turn) (n : ℕ)
      → policy.restart ≡ true
      → All (IsCrash policy) ts
      → ((supervise power perturb policy ts n).waits ≡ until_none (delays n ts))
        × ((supervise power perturb policy ts n).runs ≡ (
            if all_some (delays n ts) then length ts else suc (length (until_none (delays n ts)))))
        × ((supervise power perturb policy ts n).died ≡ not (all_some (delays n ts)))
        × ((supervise power perturb policy ts n).ended ≡ not (all_some (delays n ts)))
  unfolding supervise counted until_none all_some restarted
  supervise-delays [] n r h = (refl, refl, refl, refl)
  supervise-delays (t ∷ ts) n r ((a, b, c, d), h) =
      let rest = supervise-delays ts (suc n) r h in
      elim (Option-cases (delay power perturb policy.backoff n)) [
        | inl none_now ↦ ground (arith, none_now)
        | inr (x, now) ↦ ground (arith, rest, now)
      ]

  -- Once the event is seen the service is not run again, whatever would come after.
  pub supervise-stops :
      (before after : List Turn) (t : Turn) (n : ℕ)
      → IsStop t
      → supervise power perturb policy (before ++ t ∷ after) n
        ≡ supervise power perturb policy (before ++ t ∷ []) n
  unfolding supervise restarted
  supervise-stops [] after t n h =
      elim (Option-cases (delay power perturb policy.backoff (counted policy t.ran n))) [
        | inl e ↦ ground (arith, e)
        | inr (x, e) ↦ ground (arith, e)
      ]
  supervise-stops (b ∷ before) after t n h =
      ground (arith, supervise-stops before after t (suc (counted policy b.ran n)) h)
