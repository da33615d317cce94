-- ===== src/Build.antt =====
-- backend/assemblage/build: what the files of a repository say of how to build it.
pub mod Detect
pub mod Linux
pub mod Rust
pub mod Discovery
