-- ===== src/Checks.antt =====
-- nats server stream-check and consumer-check: what the servers say of one replicated asset, compared.
pub mod Replicas
pub mod Streams
pub mod Consumers
