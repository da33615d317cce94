-- ===== src/Store/Scrapers.antt =====
-- The scrapers' crawl windows: `ready_scraper_table`, `register_scraper`, `update_scraper`.
pub mod Keeping
use assemblage.Prelude.{
  ℕ, suc, Bool, true, ◌==◌, nat_eq, list_eq, [], ◌∷◌, ◌++◌, none, some, Text, codes,
}
use assemblage.Db.Models.{Db, ScraperData}
use assemblage.Db.Session.{Action, Result, ok, session_scope}
use assemblage.Db.Query.{where_, update, first}

unfoldable pub ready_scraper_table : Action Unit
unfolding update
ready_scraper_table = session_scope λ db. (
  ok tt,
  record db { scrapers = update (λ _. true) (λ s. record s { owner_uuid = codes "" }) db.scrapers },
)

pub record Window : Type 0 where
  pub start_time : ℕ
  pub end_time : ℕ

window : ScraperData → Window
window s = record { start_time = s.start_time; end_time = s.end_time }

unfoldable pub owned_by : Text → ScraperData → Bool
owned_by uuid s = s.owner_uuid == uuid

add_scraper : Text → ℕ → ℕ → Db → Db
add_scraper uuid start_time end_time db = record db {
  scrapers =
      db.scrapers
      ++ (record {
        id = db.next_scraper;
        start_time = start_time;
        end_time = end_time;
        owner_uuid = uuid;
      })
        ∷ [];
  next_scraper = suc db.next_scraper;
}

claim_row : Text → ℕ → Db → Db
unfolding update
claim_row uuid id db = record db {
  scrapers =
      update (λ (s : ScraperData). s.id == id) (λ s. record s { owner_uuid = uuid }) db.scrapers;
}

claim_or_create : ℕ → Text → ℕ → ℕ → Db → Result Window × Db
unfolding window add_scraper claim_row owned_by where_
claim_or_create row uuid fallback_start fallback_end db =
    elim (first row (where_ (owned_by (codes "")) db.scrapers)) [
      | none ↦ (
        ok (record { start_time = fallback_start; end_time = fallback_end }),
        add_scraper uuid fallback_start fallback_end db,
      )
      | some s ↦ (ok (window s), claim_row uuid s.id db)
    ]

register_body : ℕ → Text → ℕ → ℕ → Db → Result Window × Db
unfolding claim_or_create
register_body row uuid fallback_start fallback_end db =
    elim (first row (where_ (owned_by uuid) db.scrapers)) [
      | some owned ↦ (ok (window owned), db)
      | none ↦ claim_or_create row uuid fallback_start fallback_end db
    ]

unfoldable pub register_scraper : ℕ → Text → ℕ → ℕ → Action Window
unfolding register_body
register_scraper row uuid fallback_start fallback_end =
    session_scope (register_body row uuid fallback_start fallback_end)

set_start : ℕ → ℕ → Db → Db
unfolding update
set_start id start_time db = record db {
  scrapers =
      update (λ (s : ScraperData). s.id == id) (λ s. record s { start_time = start_time })
        db.scrapers;
}

unfoldable pub update_scraper : ℕ → Text → ℕ → ℕ → Action Unit
unfolding add_scraper set_start owned_by where_
update_scraper row uuid start_time fallback_end = session_scope λ db.
    elim (first row (where_ (owned_by uuid) db.scrapers)) [
      | none ↦ (ok tt, add_scraper uuid start_time fallback_end db)
      | some s ↦ (ok tt, set_start s.id start_time db)
    ]
