-- ===== src/Messaging.antt =====
-- internal/messaging: the events of an order, and the publishers of internal/messaging/kafka and
-- internal/messaging/noop.
pub mod Event
pub mod Kafka
