-- ===== src/Build/Rust.antt =====
-- backend/assemblage/build/rust.py: the codegen backends, the environment of cargo, and the build.
pub mod Backends
pub mod Cargo
pub mod Strategy
