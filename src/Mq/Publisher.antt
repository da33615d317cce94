-- ===== src/Mq/Publisher.antt =====
-- backend/assemblage/mq/publisher.py: a publish is confirmed by the broker, or raises.
pub mod Copies
use assemblage.Prelude.{
  Bool, true, false, if◌then◌else◌, List, [], ◌∷◌, ◌++◌, ℕ, zero, suc, ◌+◌, ◌<◌, ◌≤◌, ◌≡◌, ◌≢◌,
  refl, ◌⊎◌, inl, inr, arith, ℕ_discrete, subst,
}

-- How one attempt ends: confirmed, returned unroutable, nacked, a failure of the connection that is
-- tried again, or any other exception.
pub data Attempt : Type 0 where
  confirmed unroutable nacked lost failed : Attempt

pub data Published : Type 0 where
  delivered publish_error other_error : Published

-- The loop with `left` of `max_attempts` attempts to make, and what the broker answers to each.
unfoldable pub publish_loop : ℕ → ℕ → (ℕ → Attempt) → Published
publish_loop zero attempt answer = publish_error
publish_loop (suc left) attempt answer = elim (answer attempt) [
  | confirmed ↦ delivered
  | unroutable ↦ publish_error
  | nacked ↦ publish_error
  | lost ↦ publish_loop left (suc attempt) answer
  | failed ↦ other_error
]

unfoldable pub publish : ℕ → (ℕ → Attempt) → Published
unfolding publish_loop
publish max_attempts answer = publish_loop max_attempts 0 answer

-- The copy of an attempt that the broker did not confirm, if it took it.
abbrev pub unconfirmed : Bool → List Bool
unconfirmed took = if took then false ∷ [] else []

-- The copies of the message that the broker takes, in their order, each with whether it confirms it.
-- `took` says of an attempt that is not confirmed whether the broker took its message all the same; a
-- message that it returns it does not take.
unfoldable pub copies_loop : ℕ → ℕ → (ℕ → Attempt) → (ℕ → Bool) → List Bool
copies_loop zero attempt answer took = []
copies_loop (suc left) attempt answer took = elim (answer attempt) [
  | confirmed ↦ true ∷ []
  | unroutable ↦ []
  | nacked ↦ unconfirmed (took attempt)
  | lost ↦ unconfirmed (took attempt) ++ copies_loop left (suc attempt) answer took
  | failed ↦ unconfirmed (took attempt)
]

unfoldable pub copies : ℕ → (ℕ → Attempt) → (ℕ → Bool) → List Bool
unfolding copies_loop
copies max_attempts answer took = copies_loop max_attempts 0 answer took

-- Every attempt from `from` up to, and without, `to` lost its connection.
abbrev pub AllLost : (ℕ → Attempt) → ℕ → ℕ → Type 0
AllLost answer from to = (k : ℕ) → from ≤ k → k < to → answer k ≡ lost

-- The attempt at `k` is made, and none after it.
abbrev pub Decides : (ℕ → Attempt) → ℕ → ℕ → ℕ → Type 0
Decides answer from to k = (from ≤ k) × (k < to) × AllLost answer from k × (answer k ≢ lost)

-- What the attempt that decides makes of the publish.
unfoldable pub verdict : Attempt → Published
verdict confirmed = delivered
verdict failed = other_error
verdict _ = publish_error

abbrev Ends : (ℕ → Attempt) → ℕ → ℕ → Published → Type 0
Ends answer from to r =
    (AllLost answer from to × (r ≡ publish_error))
    ⊎ ((k : ℕ) × Decides answer from to k × (r ≡ verdict (answer k)))

lost_before :
    (answer : ℕ → Attempt) (from to : ℕ)
    → answer from ≡ lost
    → AllLost answer (suc from) to
    → AllLost answer from to
lost_before answer from to e h k le lt = elim (ℕ_discrete from k) [
  | yes p ↦ subst (λ j. answer j ≡ lost) p e
  | no n ↦ h k (omega (arith, n)) lt
]

Ends-later :
    (answer : ℕ → Attempt) (from to : ℕ) (r : Published)
    → answer from ≡ lost
    → Ends answer (suc from) to r
    → Ends answer from to r
Ends-later answer from to r e (inl (all, h)) = inl (lost_before answer from to e all, h)
Ends-later answer from to r e (inr (k, (ge, lt, before, ne), h)) =
    inr (k, (omega arith, lt, lost_before answer from k e before, ne), h)

Ends-now :
    (answer : ℕ → Attempt) (from to : ℕ) (r : Published)
    → from < to
    → answer from ≢ lost
    → r ≡ verdict (answer from)
    → Ends answer from to r
Ends-now answer from to r lt ne h =
    inr (from, (omega arith, lt, (λ k ge less. absurd (omega arith)), ne), h)

Ends-step :
    (answer : ℕ → Attempt) (left from to : ℕ) (a : Attempt)
    → answer from ≡ a
    → from < to
    → Ends answer (suc from) to (publish_loop left (suc from) answer)
    → Ends answer from to (publish_loop (suc left) from answer)
unfolding publish_loop verdict
Ends-step answer left from to lost e lt later =
    rw (e, publish_loop) (Ends-later answer from to _ e later)
Ends-step answer left from to confirmed e lt later =
    Ends-now answer from to _ lt (λ h. cc) (ground arith)
Ends-step answer left from to unroutable e lt later =
    Ends-now answer from to _ lt (λ h. cc) (ground arith)
Ends-step answer left from to nacked e lt later =
    Ends-now answer from to _ lt (λ h. cc) (ground arith)
Ends-step answer left from to failed e lt later =
    Ends-now answer from to _ lt (λ h. cc) (ground arith)

publish_loop-Ends :
    (answer : ℕ → Attempt) (left from to : ℕ)
    → to ≡ from + left
    → Ends answer from to (publish_loop left from answer)
unfolding publish_loop
publish_loop-Ends answer zero from to e = inl ((λ k ge lt. absurd (omega arith)), refl)
publish_loop-Ends answer (suc left) from to e =
    Ends-step answer left from to (answer from) refl (omega arith)
      (publish_loop-Ends answer left (suc from) to (omega arith))

-- A publish ends in one of two ways: all of `max_attempts` attempts lose their connection and it
-- raises `PublishError`, or some attempt within them is the first that does not, and the broker's
-- answer to that one decides. So it returns only when the broker confirmed the message.
pub publish-Ends :
    (max_attempts : ℕ) (answer : ℕ → Attempt)
    → (AllLost answer 0 max_attempts × (publish max_attempts answer ≡ publish_error))
      ⊎ ((k : ℕ) × Decides answer 0 max_attempts k
          × (publish max_attempts answer ≡ verdict (answer k)))
unfolding publish
publish-Ends max_attempts answer =
    publish_loop-Ends answer max_attempts 0 max_attempts (omega arith)
