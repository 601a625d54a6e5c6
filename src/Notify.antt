-- ===== src/Notify.antt =====
-- apps/notification-service: the tables, the service, the reads, the consumer of Kafka messages, and the hub that
-- hands notifications to the open streams.
pub mod Store
pub mod Service
pub mod Consumer
pub mod Reads
pub mod Hub
