-- ===== src/Coordinator/Manager.antt =====
-- `DispatchManager` of backend/assemblage/coordinator/dispatch.py over `Supervisor.add_and_start`:
-- the options whose dispatcher was started, and the services that the supervisor launched.
use assemblage.Prelude.{
  ℕ, ◌≡◌, Bool, true, false, nat_eq, contains, if◌then◌else◌, List, [], ◌∷◌, arith, Bool-cases, inl,
  inr,
}

pub record Manager : Type 0 where
  pub started : List ℕ
  -- The launched dispatchers, the last one first.
  pub launched : List ℕ
  -- The supervisor's stop event.
  pub stopping : Bool

-- `add_and_start` does nothing once shutdown has begun.
add_and_start : ℕ → Manager → Manager
add_and_start opt_id m = if m.stopping then m else record m { launched = opt_id ∷ m.launched }

unfoldable pub ensure_started : ℕ → Manager → Manager
unfolding add_and_start
ensure_started opt_id m =
    if contains m.started opt_id
    then m
    else add_and_start opt_id (record m { started = opt_id ∷ m.started })

pub ensure_all : List ℕ → Manager → Manager
unfolding ensure_started
ensure_all [] m = m
ensure_all (o ∷ os) m = ensure_all os (ensure_started o m)

-- Every launched dispatcher is known as started, and none twice.
abbrev pub Distinct : List ℕ → Type 0
Distinct [] = Unit
Distinct (x ∷ xs) = (contains xs x ≡ false) × Distinct xs

pub record IsValid (m : Manager) : Type 0 where
  pub known : (o : ℕ) → contains m.launched o ≡ true → contains m.started o ≡ true
  pub once : Distinct m.launched

ensure_started-IsValid : (o : ℕ) (m : Manager) → IsValid m → IsValid (ensure_started o m)
unfolding ensure_started
ensure_started-IsValid o m v = elim (Bool-cases (contains m.started o)) [
  | inl old ↦ simp old v
  | inr new ↦ simp new (record {
    known = λ k h. ground (arith, v.known k);
    once = ground (arith, v.once, v.known o);
  })
]

-- However often options are started, from a valid manager no dispatcher is launched twice, and every
-- launched one is known as started.
pub ensure_all-IsValid : (os : List ℕ) (m : Manager) → IsValid m → IsValid (ensure_all os m)
unfolding ensure_all
ensure_all-IsValid [] m v = v
ensure_all-IsValid (o ∷ os) m v =
    ensure_all-IsValid os (ensure_started o m) (ensure_started-IsValid o m v)
