-- ===== src/Runtime/Supervisor.antt =====
-- `_supervise` of backend/assemblage/runtime/supervisor.py: the thread of one service.
pub mod Restarts
use assemblage.Prelude.{
  ℕ, suc, Bool, true, false, ◌||◌, not, leb, if◌then◌else◌, List, [], ◌∷◌, Option, none, some,
}
use assemblage.Runtime.Service.{Backoff, RestartPolicy, delay}

-- What the thread meets in one turn of its loop: whether the stop event is set at its head, how long
-- the run takes (it returns or raises), whether the event is set when it ends, and during the wait.
pub record Turn : Type 0 where
  pub stopped : Bool
  pub ran : ℕ
  pub stopped_in_run : Bool
  pub stopped_in_wait : Bool

-- How often the service was run, and the delays before its restarts; has the thread left its loop, and
-- was it by an exception of the loop's own.
pub record Trace : Type 0 where
  pub runs : ℕ
  pub waits : List ℕ
  pub ended : Bool
  pub died : Bool

-- The attempt that a restart counts as.
unfoldable pub counted : RestartPolicy → ℕ → ℕ → ℕ
counted policy ran attempt = if leb policy.reset_after ran then 0 else attempt

-- From the delay on: where it cannot be computed the exception ends the thread.
unfoldable pub restarted : Option ℕ → Bool → Trace → Trace
restarted none stopped rest = record { runs = 1; waits = []; ended = true; died = true }
restarted (some d) true rest = record { runs = 1; waits = d ∷ []; ended = true; died = false }
restarted (some d) false rest = record {
  runs = suc rest.runs;
  waits = d ∷ rest.waits;
  ended = rest.ended;
  died = rest.died;
}

module _ (power : ℕ → ℕ → Option ℕ) (perturb : ℕ → ℕ → ℕ) (policy : RestartPolicy) where
  -- From the given attempt, through the turns to come; past them the service still runs.
  unfoldable pub supervise : List Turn → ℕ → Trace
  unfolding delay counted restarted
  supervise [] attempt = record { runs = 0; waits = []; ended = false; died = false }
  supervise (t ∷ ts) attempt =
      let n = counted policy t.ran attempt in
      let rest = supervise ts (suc n) in
      if t.stopped
      then record { runs = 0; waits = []; ended = true; died = false }
      else if t.stopped_in_run || not policy.restart
      then record { runs = 1; waits = []; ended = true; died = false }
      else restarted (delay power perturb policy.backoff n) t.stopped_in_wait rest
