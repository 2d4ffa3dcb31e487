-- ===== src/Fulfillment.antt =====
-- internal/fulfillment: the saga of an order, one handler for each worker queue.
pub mod Ports
pub mod Rules
pub mod Handlers
pub mod Adapters
pub mod Saga
