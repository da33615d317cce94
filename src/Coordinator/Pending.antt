-- ===== src/Coordinator/Pending.antt =====
-- `PendingRepoRequest` of backend/assemblage/coordinator/scraper_requests.py. A time is a number of
-- one unit.
use assemblage.Prelude.{
  ℕ, ◌+◌, ◌<◌, ◌≡◌, refl, Bool, true, false, ◌&&◌, leb, if◌then◌else◌, List, [], ◌∷◌, arith,
  Bool-cases, inl, inr,
}

pub record Pending : Type 0 where
  pub timeout : ℕ
  pub pending : Bool
  pub requested_at : ℕ

unfoldable pub create : ℕ → Pending
create timeout = record { timeout = timeout; pending = false; requested_at = 0 }

unfoldable pub clear : Pending → Pending
clear p = record p { pending = false }

unfoldable pub claim : Pending → ℕ → Bool × Pending
claim p now =
    if p.pending && leb now (p.requested_at + p.timeout)
    then (false, p)
    else (true, record p { pending = true; requested_at = now })

-- The times at which claims at the given times are granted, with no bundle in between.
pub grants : Pending → List ℕ → List ℕ
grants p [] = []
grants p (t ∷ ts) =
    let (granted, q) = claim p t in let rest = grants q ts in if granted then t ∷ rest else rest

-- Each time lies more than `gap` after the one before it.
abbrev pub Spaced : ℕ → ℕ → List ℕ → Type 0
Spaced gap last [] = Unit
Spaced gap last (t ∷ ts) = (last + gap < t) × Spaced gap t ts

grants-Spaced :
    (p : Pending) (ts : List ℕ) → p.pending ≡ true → Spaced p.timeout p.requested_at (grants p ts)
unfolding grants claim
grants-Spaced p [] h = tt
grants-Spaced p (t ∷ ts) h = elim (Bool-cases (leb t (p.requested_at + p.timeout))) [
  | inl early ↦ simp (h, early) (grants-Spaced p ts h)
  | inr late ↦
      simp (h, late)
        (ground arith, grants-Spaced (record p { pending = true; requested_at = t }) ts refl)
]

-- While no bundle arrives, the first claim is granted if none is outstanding, and after it claims
-- are granted more than the timeout apart, whenever they are made.
pub claim-Spaced :
    (p : Pending) (t : ℕ) (ts : List ℕ)
    → p.pending ≡ false
    → (grants p (t ∷ ts) ≡ t ∷ grants (claim p t).1 ts)
      × Spaced p.timeout t (grants (claim p t).1 ts)
unfolding grants claim
claim-Spaced p t ts h =
    rw h (refl, grants-Spaced (record p { pending = true; requested_at = t }) ts refl)

-- A bundle reopens the gate at once, and so does a time past the timeout.
pub claim_granted :
    (p : Pending) (now : ℕ)
    → ((claim (clear p) now).0 ≡ true) × (p.requested_at + p.timeout < now → (claim p now).0 ≡ true)
unfolding claim clear
claim_granted p now = ground arith
