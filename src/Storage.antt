-- ===== src/Storage.antt =====
-- backend/assemblage/storage: the names of the stored objects.
pub mod Layout
pub mod Bucket
