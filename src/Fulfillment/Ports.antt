-- ===== src/Fulfillment/Ports.antt =====
-- internal/fulfillment/handlers.go: the interfaces that the handlers use, over the state `S` of the
-- store behind them. A nil dependency is `none`.
use fulfillhub_go_commerce_p.Prelude.{ℕ, String, Option}
use fulfillhub_go_commerce_p.Commerce.Status.{OrderStatus}
use fulfillhub_go_commerce_p.Commerce.Model.{Time, Order, Payment, Shipment}
use fulfillhub_go_commerce_p.Commerce.Event.{OutboxEvent, AuditLog}
use fulfillhub_go_commerce_p.Commerce.Result.{Op}
use fulfillhub_go_commerce_p.Commerce.Store.{MemoryStore, get_order, update_order_status}
use fulfillhub_go_commerce_p.Commerce.Store.Projection.{
  record_inventory_reserved, record_inventory_rejected, record_payment_authorized,
  record_payment_failed, record_shipment_created, record_shipment_failed, record_order_cancelled,
  record_notification_queued, record_compensation,
}

pub record OrderStatusUpdater (S : Type 0) : Type 0 where
  pub get : String → Op S Order
  pub update_status : String → OrderStatus → Time → OutboxEvent → AuditLog → Op S Order

pub record Projector (S : Type 0) : Type 0 where
  pub inventory_reserved : OutboxEvent → OutboxEvent → AuditLog → Op S (Unit {0})
  pub inventory_rejected : OutboxEvent → OutboxEvent → AuditLog → Op S (Unit {0})
  pub payment_authorized : OutboxEvent → OutboxEvent → Payment → AuditLog → Op S (Unit {0})
  pub payment_failed : OutboxEvent → OutboxEvent → AuditLog → Op S (Unit {0})
  pub shipment_created : OutboxEvent → OutboxEvent → Shipment → AuditLog → Op S (Unit {0})
  pub shipment_failed : OutboxEvent → OutboxEvent → AuditLog → Op S (Unit {0})
  pub order_cancelled : OutboxEvent → OutboxEvent → AuditLog → Op S (Unit {0})
  pub notification_queued : OutboxEvent → AuditLog → Op S (Unit {0})
  pub compensation : OutboxEvent → OrderStatus → AuditLog → Op S (Unit {0})

-- `new_id n prefix` is the text that the n-th call of `NewID(prefix)` draws while one delivery is
-- handled, and `clock` the one reading of the clock.
pub record Dependencies (S : Type 0) : Type 0 where
  pub projector : Option (Projector S)
  pub orders : Option (OrderStatusUpdater S)
  pub inventory_reserver : Option (OutboxEvent → Op S (Unit {0}))
  pub payment_authorizer : Option (OutboxEvent → Op S Payment)
  pub shipment_creator : Option (OutboxEvent → Op S Shipment)
  pub clock : Time
  pub new_id : ℕ → String → String

-- The memory store as both ports.
unfoldable pub memory_orders : OrderStatusUpdater MemoryStore
memory_orders = record { get = get_order; update_status = update_order_status }

unfoldable pub memory_projector : Projector MemoryStore
memory_projector = record {
  inventory_reserved = record_inventory_reserved;
  inventory_rejected = record_inventory_rejected;
  payment_authorized = record_payment_authorized;
  payment_failed = record_payment_failed;
  shipment_created = record_shipment_created;
  shipment_failed = record_shipment_failed;
  order_cancelled = record_order_cancelled;
  notification_queued = record_notification_queued;
  compensation = record_compensation;
}
