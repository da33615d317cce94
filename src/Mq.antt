-- ===== src/Mq.antt =====
-- backend/assemblage/mq: queues, the consumer loop and the publisher.
pub mod Topology
pub mod Consumer
pub mod Publisher
