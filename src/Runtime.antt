-- ===== src/Runtime.antt =====
-- backend/assemblage/runtime: how a service is restarted and stopped.
pub mod Service
pub mod Supervisor
