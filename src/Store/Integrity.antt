-- ===== src/Store/Integrity.antt =====
-- Every write of the store keeps the keys of the tables consistent.
use assemblage.Prelude.{
  ℕ, ◌≡◌, refl, sym, subst, inl, Bool, List, [], ◌∷◌, ◌++◌, map, Option, none, some,
}
use mathlib.Core.List.{map-append}
use assemblage.Db.Models.{Db, Status}
use assemblage.Db.Query.{update, Has, All}
use assemblage.Db.Query.Laws.{All-update, All-mono, map-update, Has-append_left, Has-append_right}
use assemblage.Db.Query.Keys.{Rising}
use assemblage.Db.Integrity.{IsConsistent, HasParents, Refers, opt_ids, repo_ids}

-- A change of status rows that keeps their keys and foreign keys.
pub record KeepsKeys (f : Status → Status) : Type 0 where
  pub id : (s : Status) → (f s).id ≡ s.id
  pub repo : (s : Status) → (f s).repo_id ≡ s.repo_id
  pub option : (s : Status) → (f s).build_opt_id ≡ s.build_opt_id

pub update-IsConsistent :
    (p : Status → Bool) (f : Status → Status) (db : Db)
    → KeepsKeys f
    → IsConsistent db
    → IsConsistent (record db { statuses = update p f db.statuses })
update-IsConsistent p f db k v = record {
  opt_keys = v.opt_keys;
  repo_keys = v.repo_keys;
  status_keys =
      subst (λ ids. Rising 0 ids db.next_status) (sym (map-update _ p f db.statuses k.id))
        v.status_keys;
  parents =
      All-update p f db.statuses
        (λ s _ h. (
          subst (λ r. Has r (repo_ids db)) (sym (k.repo s)) h.0,
          subst (λ o. Refers o (opt_ids db)) (sym (k.option s)) h.1,
        ))
        v.parents;
}

Refers-mono :
    (o : Option ℕ) (xs ys : List ℕ) → ((k : ℕ) → Has k xs → Has k ys) → Refers o xs → Refers o ys
Refers-mono none xs ys f h = tt
Refers-mono (some o) xs ys f h = f o h

-- Rows that have their parents have them in tables that hold more rows.
pub parents_mono :
    (db db' : Db) (ss : List Status)
    → ((k : ℕ) → Has k (repo_ids db) → Has k (repo_ids db'))
    → ((k : ℕ) → Has k (opt_ids db) → Has k (opt_ids db'))
    → All (HasParents db) ss
    → All (HasParents db') ss
parents_mono db db' ss rs os h =
    All-mono ss
      (λ s k. (rs s.repo_id k.0, Refers-mono s.build_opt_id (opt_ids db) (opt_ids db') os k.1)) h

pub ids_grow :
    {A : Type 0} (key : A → ℕ) (xs ys : List A) (k : ℕ)
    → Has k (map key xs)
    → Has k (map key (xs ++ ys))
ids_grow key xs ys k h = rw (map-append key xs ys) (Has-append_left k (map key xs) (map key ys) h)

pub id_last :
    {A : Type 0} (key : A → ℕ) (xs : List A) (x : A) → Has (key x) (map key (xs ++ x ∷ []))
id_last key xs x =
    rw (map-append key xs (x ∷ [])) (Has-append_right (key x) (map key xs) (key x ∷ []) (inl refl))
