-- ===== src/Coordinator.antt =====
-- backend/assemblage/coordinator: what the coordinator does with each message and each tick.
pub mod Ingest
pub mod Registration
pub mod Starvation
pub mod Pending
pub mod Dispatcher
pub mod Manager
pub mod System
pub mod Running
