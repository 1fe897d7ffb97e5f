-- ===== src/Bench.antt =====
-- nats bench: how its settings are checked, how the messages are shared among the clients, how they
-- are sent, and how the samples are put together.
pub mod Clients
pub mod Batches
pub mod Stats
pub mod Settings
pub mod FastBatch
pub mod Loops
pub mod Setup
