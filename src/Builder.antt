-- ===== src/Builder.antt =====
-- backend/assemblage/builder: what a builder does with a task and reports of it.
pub mod Source
pub mod Report
pub mod Pipeline
pub mod Tail
pub mod Ir
pub mod Artifacts
pub mod App
