-- ===== src/Store/Progress.antt =====
-- A task that was started stays started under every write of the store.
use assemblage.Prelude.{
  ℕ, suc, ◌≤◌, ◌<◌, ◌≡◌, ◌≢◌, sym, subst, ◌∙◌, Bool, nat_eq, List, [], ◌∷◌, ◌++◌, map, arith,
}
use assemblage.Enums.{CloneStatus}
use assemblage.Db.Models.{Db, Status}
use assemblage.Db.Query.{update, All}
use assemblage.Db.Query.Laws.{All-append, All-update}
use assemblage.Db.Query.Keys.{Rising}

-- Every row with this key has left NOT_STARTED.
abbrev pub IsStarted : ℕ → Db → Type 0
IsStarted k db = All (λ s. s.id ≡ k → s.clone_status ≢ CloneStatus.not_started) db.statuses

-- From `db` to `db'`, keys only grow and what was started stays so.
pub record Progress (db db' : Db) : Type 0 where
  pub keys : db.next_status ≤ db'.next_status
  pub started : (k : ℕ) → k < db.next_status → IsStarted k db → IsStarted k db'

pub Progress-refl : (db : Db) → Progress db db
Progress-refl db = record { keys = omega arith; started = λ k lt h. h }

pub Progress-trans : (a b c : Db) → Progress a b → Progress b c → Progress a c
Progress-trans a b c p q = record {
  keys = omega (arith, p.keys, q.keys);
  started = λ k lt h. q.started k (omega (arith, p.keys)) (p.started k lt h);
}

-- The tables of statuses are the same.
pub Progress-same :
    (db db' : Db) → db'.statuses ≡ db.statuses → db'.next_status ≡ db.next_status → Progress db db'
Progress-same db db' e n = record {
  keys = omega (arith, n);
  started =
      λ k lt h. subst (All (λ s. s.id ≡ k → s.clone_status ≢ CloneStatus.not_started)) (sym e) h;
}

-- A change of rows that starts or keeps started.
pub Progress-update :
    (p : Status → Bool) (f : Status → Status) (db : Db)
    → ((s : Status) → (f s).id ≡ s.id)
    → ((s : Status)
        → s.clone_status ≢ CloneStatus.not_started
        → (f s).clone_status ≢ CloneStatus.not_started)
    → Progress db (record db { statuses = update p f db.statuses })
Progress-update p f db ids keeps = record {
  keys = omega arith;
  started = λ k lt h. All-update p f db.statuses (λ s _ g e. keeps s (g (sym (ids s) ∙ e))) h;
}

Rising-above :
    (lo hi : ℕ) (ss : List Status) (k : ℕ)
    → k < lo
    → Rising lo (map (λ (s : Status). s.id) ss) hi
    → All (λ s. s.id ≡ k → s.clone_status ≢ CloneStatus.not_started) ss
Rising-above lo hi [] k lt h = tt
Rising-above lo hi (s ∷ ss) k lt h = (
  (λ e. absurd (omega (arith, h.0, e))),
  Rising-above (suc s.id) hi ss k (omega (arith, h.0)) h.1,
)

-- New rows come with new keys.
pub Progress-append :
    (db db' : Db) (new : List Status)
    → db'.statuses ≡ db.statuses ++ new
    → Rising db.next_status (map (λ (s : Status). s.id) new) db'.next_status
    → db.next_status ≤ db'.next_status
    → Progress db db'
Progress-append db db' new e r n = record {
  keys = n;
  started = λ k lt h.
      subst (All (λ s. s.id ≡ k → s.clone_status ≢ CloneStatus.not_started)) (sym e)
        (All-append _ db.statuses new h (Rising-above db.next_status db'.next_status new k lt r));
}
