-- ===== src/Db.antt =====
-- backend/assemblage/db: the rows of the live schema, the database and its sessions.
pub mod Models
pub mod Session
pub mod Query
pub mod Integrity
