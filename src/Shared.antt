-- ===== src/Shared.antt =====
-- The packages under apps/shared that the services import.
pub mod Errors
pub mod Redis
pub mod Kafka
pub mod Events
pub mod Dlq
pub mod Retry
pub mod Ints
pub mod Tx
pub mod Walk
pub mod Outbox
