-- ===== src/Db/Query.antt =====
-- The clauses of the queries over a table as the list of its rows.
pub mod Laws
pub mod Keys
use assemblage.Prelude.{
  ℕ, zero, suc, ◌+◌, ◌%◌, ◌≤◌, ◌<◌, ◌≡◌, ◌≢◌, refl, ap, ◌⊎◌, inl, inr, Bool, true, false, ◌||◌,
  if◌then◌else◌, List, [], ◌∷◌, ◌++◌, map, Option, none, some, length, arith, Bool-cases,
}

module _ {ℓ} {A : Type ℓ} where
  -- WHERE p
  unfoldable pub where_ : (A → Bool) → List A → List A
  where_ p [] = []
  where_ p (x ∷ xs) = let rest = where_ p xs in if p x then x ∷ rest else rest

  -- EXISTS (… WHERE p)
  unfoldable pub exists : (A → Bool) → List A → Bool
  exists p [] = false
  exists p (x ∷ xs) = p x || exists p xs

  -- UPDATE … SET f WHERE p
  unfoldable pub update : (A → Bool) → (A → A) → List A → List A
  update p f [] = []
  update p f (x ∷ xs) = (if p x then f x else x) ∷ update p f xs

  nth : ℕ → A → List A → A
  nth zero x xs = x
  nth (suc n) x [] = x
  nth (suc n) x (y ∷ ys) = nth n y ys

  -- `.first()` or `LIMIT 1` with no ORDER BY: the database returns any of the rows, here the one
  -- that `row` counts off.
  unfoldable pub first : ℕ → List A → Option A
  unfolding nth
  first row [] = none
  first row (x ∷ xs) = some (nth (row % suc (length xs)) x xs)

  abbrev pub All {κ} : (A → Type κ) → List A → Type κ
  All P [] = Unit
  All P (x ∷ xs) = P x × All P xs

-- `a` is one of the rows.
abbrev pub Has : {A : Type 0} → A → List A → Type 0
Has a [] = ⊥
Has a (x ∷ xs) = (a ≡ x) ⊎ Has a xs
