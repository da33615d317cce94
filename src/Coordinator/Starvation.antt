-- ===== src/Coordinator/Starvation.antt =====
-- `StarvationSignals` of backend/assemblage/coordinator/dispatch.py: a flag for each build option
-- that ran out of work, in the order in which the options were first marked.
use assemblage.Prelude.{
  ℕ, ◌≡◌, refl, Bool, true, false, ◌==◌, nat_eq, contains, if◌then◌else◌, List, [], ◌∷◌, arith,
  ◌||◌, ◌&&◌, ◌∙◌,
}

abbrev pub Signals : Type 0
Signals = List (ℕ × Bool)

unfoldable pub mark : ℕ → Signals → Signals
mark opt [] = (opt, true) ∷ []
mark opt ((o, b) ∷ s) = if o == opt then (o, true) ∷ s else (o, b) ∷ mark opt s

starving : Signals → List ℕ
starving [] = []
starving ((o, b) ∷ s) = let rest = starving s in if b then o ∷ rest else rest

cleared : Signals → Signals
cleared [] = []
cleared ((o, b) ∷ s) = (o, false) ∷ cleared s

pub take_starving : Signals → List ℕ × Signals
unfolding starving cleared
take_starving s = (starving s, cleared s)

-- Is the flag of this option up?
pub flagged : ℕ → Signals → Bool
flagged opt [] = false
flagged opt ((o, b) ∷ s) = (o == opt && b) || flagged opt s

pub flagged-mark : (opt o : ℕ) (s : Signals) → flagged o (mark opt s) ≡ (o == opt || flagged o s)
unfolding mark flagged
flagged-mark opt o [] = ground arith
flagged-mark opt o ((k, b) ∷ s) = ground (arith, flagged-mark opt o s)

contains-starving : (o : ℕ) (s : Signals) → contains (starving s) o ≡ flagged o s
unfolding starving flagged
contains-starving o [] = refl
contains-starving o ((k, b) ∷ s) = ground (arith, contains-starving o s)

flagged-cleared : (o : ℕ) (s : Signals) → flagged o (cleared s) ≡ false
unfolding cleared flagged
flagged-cleared o [] = refl
flagged-cleared o ((k, b) ∷ s) = ground (arith, flagged-cleared o s)

-- Taking the flags after a mark returns the option and every option flagged before, no other, and
-- leaves no flag up.
pub take_starving-mark :
    (opt o : ℕ) (s : Signals)
    → (contains (take_starving (mark opt s)).0 o ≡ (o == opt || flagged o s))
      × (flagged o (take_starving (mark opt s)).1 ≡ false)
unfolding take_starving
take_starving-mark opt o s =
    (contains-starving o (mark opt s) ∙ flagged-mark opt o s, flagged-cleared o (mark opt s))
