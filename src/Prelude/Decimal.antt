-- ===== src/Prelude/Decimal.antt =====
-- `str(n)` of a number, and the number that a decimal text stands for.
use Prim.Native.Nat.{ℕ, zero, suc, ◌+◌, ◌-◌, ◌*◌, ◌/◌, ◌%◌, ◌<◌}
use mathlib.Core.Path.{◌≡◌, ap, ◌∙◌, sym}
use mathlib.Core.Logic.{inl, inr}
use mathlib.Core.List.{[], ◌∷◌}
use native.Mathlib.Omega.{arith}
use assemblage.Prelude.Tests.{ltb, if◌then◌else◌, Bool-cases}
use assemblage.Prelude.Texts.{Text}

-- The digits of `n`, before those of `acc`.
decimal_acc : ℕ → ℕ → Text → Text
decimal_acc zero n acc = acc
decimal_acc (suc f) n acc =
    let rest = decimal_acc f (n / 10) ((48 + n % 10) ∷ acc) in
    if ltb n 10 then (48 + n) ∷ acc else rest

unfoldable pub decimal : ℕ → Text
unfolding decimal_acc
decimal n = decimal_acc (suc n) n []

pub decimal_value : ℕ → Text → ℕ
decimal_value v [] = v
decimal_value v (c ∷ cs) = decimal_value (v * 10 + (c - 48)) cs

value-decimal_acc :
    (f n : ℕ) (acc : Text) → n < f → decimal_value 0 (decimal_acc f n acc) ≡ decimal_value n acc
unfolding decimal_acc decimal_value
value-decimal_acc zero n acc h = elim h [ ]
value-decimal_acc (suc f) n acc h = elim (Bool-cases (ltb n 10)) [
  | inl small ↦ rw small (ap (λ v. decimal_value v acc) (omega arith))
  | inr more ↦ rw more (
      value-decimal_acc f (n / 10) ((48 + n % 10) ∷ acc) (ground arith)
      ∙ ap (λ v. decimal_value v acc) (omega arith))
]

pub value-decimal : (n : ℕ) → decimal_value 0 (decimal n) ≡ n
unfolding decimal decimal_value
value-decimal n = value-decimal_acc (suc n) n [] (omega arith)

-- Two numbers that print alike are equal.
pub decimal-injective : (m n : ℕ) → decimal m ≡ decimal n → m ≡ n
decimal-injective m n h = sym (value-decimal m) ∙ ap (decimal_value 0) h ∙ value-decimal n
