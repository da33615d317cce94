-- ===== src/Store/Scrapers/Keeping.antt =====
-- The scrapers' windows touch no key of another table.
use assemblage.Prelude.{ℕ, Text, codes, Option-cases, inl, inr}
use assemblage.Db.Models.{Db}
use assemblage.Db.Session.{World}
use assemblage.Db.Query.{where_, first}
use assemblage.Store.Moves.{Moves, Keeps, Keeps-refl, Keeps-others, session_scope-Moves}
use assemblage.Store.Scrapers.{
  owned_by, add_scraper, claim_row, claim_or_create, register_body, register_scraper, set_start,
  update_scraper,
}

add_scraper-Keeps : (uuid : Text) (a b : ℕ) (db : Db) → Keeps db (add_scraper uuid a b db)
unfolding add_scraper
add_scraper-Keeps uuid a b db = Keeps-others db db.binaries db.ir _ db.next_binary db.next_ir _

claim_row-Keeps : (uuid : Text) (id : ℕ) (db : Db) → Keeps db (claim_row uuid id db)
unfolding claim_row
claim_row-Keeps uuid id db =
    Keeps-others db db.binaries db.ir _ db.next_binary db.next_ir db.next_scraper

set_start-Keeps : (id start : ℕ) (db : Db) → Keeps db (set_start id start db)
unfolding set_start
set_start-Keeps id start db =
    Keeps-others db db.binaries db.ir _ db.next_binary db.next_ir db.next_scraper

register_body-Keeps :
    (row : ℕ) (uuid : Text) (a b : ℕ) (db : Db) → Keeps db (register_body row uuid a b db).1
unfolding register_body claim_or_create
register_body-Keeps row uuid a b db =
    elim (Option-cases (first row (where_ (owned_by uuid) db.scrapers))) [
      | inr (s, e) ↦ rw (e, register_body) (Keeps-refl db)
      | inl e ↦
          rw (e, register_body)
            (elim (Option-cases (first row (where_ (owned_by (codes "")) db.scrapers))) [
              | inl q ↦ rw (q, claim_or_create) (add_scraper-Keeps uuid a b db)
              | inr (s, q) ↦ rw (q, claim_or_create) (claim_row-Keeps uuid s.id db)
            ])
    ]

pub register_scraper-Moves :
    (row : ℕ) (uuid : Text) (a b : ℕ) (w : World) → Moves w (register_scraper row uuid a b w).1
unfolding register_scraper
register_scraper-Moves row uuid a b w =
    session_scope-Moves (register_body row uuid a b) w (register_body-Keeps row uuid a b w.db)

pub update_scraper-Moves :
    (row : ℕ) (uuid : Text) (a b : ℕ) (w : World) → Moves w (update_scraper row uuid a b w).1
unfolding update_scraper
update_scraper-Moves row uuid a b w =
    session_scope-Moves _ w
      (elim (Option-cases (first row (where_ (owned_by uuid) w.db.scrapers))) [
        | inl e ↦ rw e (add_scraper-Keeps uuid a b w.db)
        | inr (s, e) ↦ rw e (set_start-Keeps s.id a w.db)
      ])
