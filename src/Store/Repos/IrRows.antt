-- ===== src/Store/Repos/IrRows.antt =====
-- `upsert_ir_artifacts`: one row for each stage of a build.
use assemblage.Prelude.{
  ℕ, ◌+◌, ◌≤◌, ◌≡◌, refl, ap, ◌⊎◌, inl, inr, Bool, true, false, nat_eq, list_eq, ==_eq, List, [],
  ◌∷◌, ◌++◌, Text, length, length-append, arith, Bool-cases,
}
use assemblage.Db.Models.{Db, IrArtifactDo}
use assemblage.Db.Session.{World, session_scope-keeps}
use assemblage.Db.Query.{where_, exists}
use assemblage.Db.Query.Laws.{where-append, length-where-update}
use assemblage.Store.Repos.{
  IrRow, new_artifact, overwrite, same_artifact, upsert_row, upsert_rows, upsert_ir_artifacts,
}

-- No two rows have one status and one stage.
pub record HasUniqueStages (db : Db) : Type 0 where
  pub once : (id : ℕ) (stage : Text) → length (where_ (same_artifact id stage) db.ir) ≤ 1

no_artifact :
    (p : IrArtifactDo → Bool) (rows : List IrArtifactDo)
    → exists p rows ≡ false
    → where_ p rows ≡ []
unfolding exists where_
no_artifact p [] h = refl
no_artifact p (a ∷ rows) h = ground (arith, no_artifact p rows)

overwrite-same :
    (id : ℕ) (stage : Text) (r : IrRow) (a : IrArtifactDo)
    → same_artifact id stage (overwrite r a) ≡ same_artifact id stage a
unfolding overwrite same_artifact
overwrite-same id stage r a = refl

new_row_bound :
    (now next status_id id : ℕ) (stage : Text) (r : IrRow) (rows : List IrArtifactDo)
    → length (where_ (same_artifact id stage) rows) ≤ 1
    → exists (same_artifact status_id r.stage) rows ≡ false
    → length (where_ (same_artifact id stage) (rows ++ new_artifact now next status_id r ∷ [])) ≤ 1
unfolding new_artifact same_artifact
new_row_bound now next status_id id stage r rows u e =
    rw (where-append (same_artifact id stage) rows (new_artifact now next status_id r ∷ [])) (
      rw (length-append (where_ (same_artifact id stage) rows) _)
        (bound (Bool-cases (same_artifact id stage (new_artifact now next status_id r)))))
  where
    bound :
        (same_artifact id stage (new_artifact now next status_id r) ≡ true)
          ⊎ (same_artifact id stage (new_artifact now next status_id r) ≡ false)
        → length (where_ (same_artifact id stage) rows)
            + length (where_ (same_artifact id stage) (new_artifact now next status_id r ∷ []))
          ≤ 1
    bound (inl q) =
        let i : status_id ≡ id = ==_eq status_id id (ground (arith, q)) in
        let s : r.stage ≡ stage = ==_eq r.stage stage (ground (arith, q)) in
        let z : length (where_ (same_artifact id stage) rows) ≡ 0 =
          rw⁻¹ i (rw⁻¹ s (ap length (no_artifact (same_artifact status_id r.stage) rows e))) in
        unfold where_ in ground (arith, z)
    bound (inr q) = unfold where_ in ground (arith, u, q)

upsert_row-HasUniqueStages :
    (now status_id : ℕ) (r : IrRow) (db : Db)
    → HasUniqueStages db
    → HasUniqueStages (upsert_row now status_id r db)
unfolding upsert_row
upsert_row-HasUniqueStages now status_id r db u =
    elim (Bool-cases (exists (same_artifact status_id r.stage) db.ir)) [
      | inl e ↦
          rw (e, upsert_row)
            (record {
              once = λ id stage.
                  rw
                    (length-where-update (same_artifact id stage) (same_artifact status_id r.stage)
                      (overwrite r) db.ir (overwrite-same id stage r))
                    (u.once id stage);
            })
      | inr e ↦
          rw (e, upsert_row)
            (record {
              once = λ id stage.
                  new_row_bound now db.next_ir status_id id stage r db.ir (u.once id stage) e;
            })
    ]

upsert_rows-HasUniqueStages :
    (now status_id : ℕ) (rs : List IrRow) (db : Db)
    → HasUniqueStages db
    → HasUniqueStages (upsert_rows now status_id rs db)
unfolding upsert_rows
upsert_rows-HasUniqueStages now status_id [] db u = u
upsert_rows-HasUniqueStages now status_id (r ∷ rs) db u =
    upsert_rows-HasUniqueStages now status_id rs (upsert_row now status_id r db)
      (upsert_row-HasUniqueStages now status_id r db u)

-- However often a report of IR is delivered, and whatever stages it repeats, no two rows of the
-- table have one status and one stage, if none had before.
pub upsert_ir_artifacts-HasUniqueStages :
    (now status_id : ℕ) (rs : List IrRow) (w : World)
    → HasUniqueStages w.db
    → HasUniqueStages (upsert_ir_artifacts now status_id rs w).1.db
unfolding upsert_ir_artifacts
upsert_ir_artifacts-HasUniqueStages now status_id [] w u = u
upsert_ir_artifacts-HasUniqueStages now status_id (r ∷ rs) w u =
    session_scope-keeps _ w HasUniqueStages
      (upsert_rows-HasUniqueStages now status_id (r ∷ rs) w.db) u
