-- ===== src/Builder/Tail.antt =====
-- What of a build's output reaches the database.
use assemblage.Prelude.{
  ℕ, zero, suc, ◌+◌, ◌-◌, ◌≤◌, ◌≡◌, refl, sym, ap, ◌∙◌, ℤ, [], ◌∷◌, Text, some, length, drop,
  length-drop, arith,
}
use assemblage.Str.{last_n}
use assemblage.Enums.{BuildStatus}
use assemblage.Builder.Report.{build_msg}
use assemblage.Coordinator.Ingest.{build_update, build_msg_limit}

drop-nil : (n : ℕ) → drop {A = ℕ} n [] ≡ []
drop-nil zero = refl
drop-nil (suc n) = refl

drop-drop : (m n : ℕ) (s : Text) → drop m (drop n s) ≡ drop (n + m) s
drop-drop m zero s = ap (λ k. drop k s) (omega arith)
drop-drop m (suc n) [] = drop-nil m ∙ sym (drop-nil (suc n + m))
drop-drop m (suc n) (c ∷ s) = drop-drop m n s ∙ ap (λ k. drop k (c ∷ s)) (suc_sum n m)
  where
    suc_sum : (n m : ℕ) → suc (n + m) ≡ suc n + m
    suc_sum n m = omega arith

last_n-last_n : (a b : ℕ) (s : Text) → a ≤ b → last_n a (last_n b s) ≡ last_n a s
unfolding last_n
last_n-last_n a b s h =
    drop-drop (length (drop (length s - b) s) - a) (length s - b) s
    ∙ ap (λ n. drop n s) (omega (arith, h, length-drop (length s - b) s))

-- The builder keeps the last 1000 characters of a message and the coordinator the last 500 of those:
-- together they store the last 500 of the whole output, where cargo prints the error.
pub build_update-build_msg :
    (opt_id : ℕ) (url : Text) (task_id : ℕ) (status : BuildStatus) (msg : Text) (time : ℤ)
    (sha : Text)
    → (build_update (build_msg opt_id url task_id status msg time sha)).build_msg
      ≡ some (last_n build_msg_limit msg)
unfolding build_update build_msg
build_update-build_msg opt_id url task_id status msg time sha =
    ap some (last_n-last_n build_msg_limit 1000 msg (omega arith))
