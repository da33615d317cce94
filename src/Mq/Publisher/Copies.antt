-- ===== src/Mq/Publisher/Copies.antt =====
-- The copies of a message that one publish leaves on the broker.
use assemblage.Prelude.{ℕ, zero, suc, ◌≡◌, ◌≢◌, refl, Bool, true, false, List, [], ◌∷◌, ◌++◌}
use assemblage.Db.Query.{All}
use assemblage.Mq.Publisher.{
  Attempt, confirmed, unroutable, nacked, lost, failed, Published, delivered, publish_error,
  other_error, publish_loop, publish, unconfirmed, copies_loop, copies,
}

-- Only the last copy can be confirmed.
abbrev pub ConfirmedLast : List Bool → Type 0
ConfirmedLast [] = Unit
ConfirmedLast (b ∷ bs) = (b ≡ true → bs ≡ []) × ConfirmedLast bs

abbrev pub IsUnconfirmed : Bool → Type 0
IsUnconfirmed b = b ≡ false

unconfirmed-ConfirmedLast :
    (took : Bool) (bs : List Bool) → ConfirmedLast bs → ConfirmedLast (unconfirmed took ++ bs)
unconfirmed-ConfirmedLast true bs h = ((λ e. absurd (cc)), h)
unconfirmed-ConfirmedLast false bs h = h

unconfirmed-All :
    (took : Bool) (bs : List Bool)
    → All IsUnconfirmed bs
    → All IsUnconfirmed (unconfirmed took ++ bs)
unconfirmed-All true bs h = (refl, h)
unconfirmed-All false bs h = h

alone-ConfirmedLast : (took : Bool) → ConfirmedLast (unconfirmed took)
alone-ConfirmedLast true = ((λ e. refl), tt)
alone-ConfirmedLast false = tt

alone-All : (took : Bool) → All IsUnconfirmed (unconfirmed took)
alone-All true = (refl, tt)
alone-All false = tt

module _ (answer : ℕ → Attempt) (took : ℕ → Bool) where
  copies_loop-ConfirmedLast : (left n : ℕ) → ConfirmedLast (copies_loop left n answer took)
  unfolding copies_loop
  copies_loop-ConfirmedLast zero n = tt
  copies_loop-ConfirmedLast (suc left) n = by (answer n) (copies_loop-ConfirmedLast left (suc n))
    where
      by :
          (a : Attempt)
          → ConfirmedLast (copies_loop left (suc n) answer took)
          → ConfirmedLast (elim a as (λ _. List Bool) [
            | confirmed ↦ true ∷ []
            | unroutable ↦ []
            | nacked ↦ unconfirmed (took n)
            | lost ↦ unconfirmed (took n) ++ copies_loop left (suc n) answer took
            | failed ↦ unconfirmed (took n)
          ])
      by confirmed later = ((λ e. refl), tt)
      by unroutable later = tt
      by nacked later = alone-ConfirmedLast (took n)
      by lost later = unconfirmed-ConfirmedLast (took n) _ later
      by failed later = alone-ConfirmedLast (took n)

  pub copies-ConfirmedLast : (max_attempts : ℕ) → ConfirmedLast (copies max_attempts answer took)
  unfolding copies
  copies-ConfirmedLast max_attempts = copies_loop-ConfirmedLast max_attempts 0

  copies_loop-All :
      (left n : ℕ)
      → publish_loop left n answer ≢ delivered
      → All IsUnconfirmed (copies_loop left n answer took)
  unfolding copies_loop publish_loop
  copies_loop-All zero n h = tt
  copies_loop-All (suc left) n h = by (answer n) (copies_loop-All left (suc n)) h
    where
      by :
          (a : Attempt)
          → (publish_loop left (suc n) answer ≢ delivered
              → All IsUnconfirmed (copies_loop left (suc n) answer took))
          → (elim a as (λ _. Published) [
            | confirmed ↦ delivered
            | unroutable ↦ publish_error
            | nacked ↦ publish_error
            | lost ↦ publish_loop left (suc n) answer
            | failed ↦ other_error
          ])
            ≢ delivered
          → All IsUnconfirmed (elim a as (λ _. List Bool) [
            | confirmed ↦ true ∷ []
            | unroutable ↦ []
            | nacked ↦ unconfirmed (took n)
            | lost ↦ unconfirmed (took n) ++ copies_loop left (suc n) answer took
            | failed ↦ unconfirmed (took n)
          ])
      by confirmed later h = absurd (h refl)
      by unroutable later h = tt
      by nacked later h = alone-All (took n)
      by lost later h = unconfirmed-All (took n) _ (later h)
      by failed later h = alone-All (took n)

  -- A publish that does not return leaves no confirmed copy.
  pub copies-All :
      (max_attempts : ℕ)
      → publish max_attempts answer ≢ delivered
      → All IsUnconfirmed (copies max_attempts answer took)
  unfolding copies publish
  copies-All max_attempts h = copies_loop-All max_attempts 0 h
