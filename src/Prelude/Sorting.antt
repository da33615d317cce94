-- ===== src/Prelude/Sorting.antt =====
-- Python's stable sort.
use mathlib.Core.Bool.{Bool}
use mathlib.Core.List.{List, [], ◌∷◌}
use assemblage.Prelude.Tests.{if◌then◌else◌}

-- Each element goes before the first one that it may precede.
module _ {A : Type 0} (may_precede : A → A → Bool) where
  unfoldable pub insert : A → List A → List A
  insert x [] = x ∷ []
  insert x (y ∷ ys) = let rest = insert x ys in if may_precede x y then x ∷ y ∷ ys else y ∷ rest

  unfoldable pub sort : List A → List A
  unfolding insert
  sort [] = []
  sort (x ∷ xs) = insert x (sort xs)
