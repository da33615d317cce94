-- ===== src/Examples.antt =====
-- Concrete worlds and runs, and the theorems at them.
pub mod Data
pub mod Store
pub mod Coordinator
pub mod Others
pub mod Builder
pub mod Scraper
pub mod Artifacts
