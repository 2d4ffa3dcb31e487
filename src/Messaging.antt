-- ===== src/Messaging.antt =====
-- internal/messaging: the topology, the inbox, the consumer and the outbox relay.
pub mod Topology
pub mod Inbox
pub mod Delivery
pub mod Consumer
pub mod Relay
