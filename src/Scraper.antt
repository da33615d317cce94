-- ===== src/Scraper.antt =====
-- backend/assemblage/scraper: a worker that searches GitHub and sends what it finds in bundles.
pub mod Bundler
pub mod Control
pub mod Crawl
pub mod Search
pub mod Client
