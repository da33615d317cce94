-- ===== src/Runtime/Service.antt =====
-- backend/assemblage/runtime/service.py. A time is a number of one unit; the jitter, a fraction in
-- the source, is counted in hundredths; the power and the random perturbation are parameters.
use assemblage.Prelude.{
  ℕ, ◌*◌, Bool, true, false, leb, if◌then◌else◌, min, List, [], ◌∷◌, Option, none, some,
}

pub record Backoff : Type 0 where
  pub initial : ℕ
  pub maximum : ℕ
  pub factor : ℕ
  pub jitter : ℕ

pub record RestartPolicy : Type 0 where
  pub restart : Bool
  pub backoff : Backoff
  pub reset_after : ℕ

-- `power` stands for the floats' `factor ** attempt`, which raises `OverflowError` (none) past the
-- largest float; `perturb spread x` is x plus a random number from -spread to spread, or 0 where that
-- is negative.
module _ (power : ℕ → ℕ → Option ℕ) (perturb : ℕ → ℕ → ℕ) where
  unfoldable pub base : Backoff → ℕ → Option ℕ
  base b attempt = elim (power b.factor attempt) [
    | none ↦ none
    | some x ↦ some (min b.maximum (b.initial * x))
  ]

  unfoldable pub delay : Backoff → ℕ → Option ℕ
  unfolding base
  delay b attempt = elim (base b attempt) [
    | none ↦ none
    | some d ↦ some (if leb b.jitter 0 then d else perturb (d * b.jitter) d)
  ]

-- The delays up to the first that cannot be computed, and whether there is none such.
unfoldable pub until_none : List (Option ℕ) → List ℕ
until_none [] = []
until_none (none ∷ os) = []
until_none (some d ∷ os) = d ∷ until_none os

unfoldable pub all_some : List (Option ℕ) → Bool
all_some [] = true
all_some (none ∷ os) = false
all_some (some d ∷ os) = all_some os
