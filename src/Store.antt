-- ===== src/Store.antt =====
-- backend/assemblage/db/store.py: every access of the coordinator to the database. A time is an
-- argument, and so is `row`, the choice of the database among rows that no query orders.
pub mod Options
pub mod Dispatch
pub mod Statuses
pub mod Repos
pub mod Scrapers
pub mod Integrity
pub mod Progress
pub mod Moves
