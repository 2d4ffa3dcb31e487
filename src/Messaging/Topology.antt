-- ===== src/Messaging/Topology.antt =====
-- internal/messaging/topology.go. A queue is a Go string: `other` stands for every text that names
-- none of the seven queues. A retry delay is in nanoseconds.
use fulfillhub_go_commerce_p.Prelude.{ℕ, ◌*◌, String, List, [], ◌∷◌}
use fulfillhub_go_commerce_p.Prelude.Text.{trim_space}
use fulfillhub_go_commerce_p.Commerce.Event.{
  EventType, event_type_text, order_created, order_cancel_requested, inventory_reserved,
  inventory_rejected, payment_authorized, payment_failed, shipment_created, shipment_failed,
  order_completed, order_cancelled, order_manual_review_required,
}

pub data Queue : Type 0 where
  inventory_reserve payments_authorize shipments_create orders_finalize : Queue
  orders_cancel orders_compensate notifications_email : Queue
  other : String → Queue

unfoldable pub queue_text : Queue → String
queue_text inventory_reserve = "inventory.reserve"
queue_text payments_authorize = "payments.authorize"
queue_text shipments_create = "shipments.create"
queue_text orders_finalize = "orders.finalize"
queue_text orders_cancel = "orders.cancel"
queue_text orders_compensate = "orders.compensate"
queue_text notifications_email = "notifications.email"
queue_text (other s) = s

abbrev pub default_max_retry_attempts : ℕ
default_max_retry_attempts = 3

pub record QueueTopology : Type 0 where
  pub queue : Queue
  pub routing_keys : List EventType
  pub retry_queue : String
  pub retry_ttl : ℕ
  pub dlq : String

unfoldable pub routing_key : EventType → String
routing_key event_type = trim_space (event_type_text event_type)

unfoldable pub queue_names : List Queue
queue_names =
    inventory_reserve ∷ payments_authorize ∷ shipments_create ∷ orders_finalize ∷ orders_cancel
    ∷ orders_compensate ∷ notifications_email ∷ []

abbrev second : ℕ
second = 1000000000

unfoldable pub queue_topologies : List QueueTopology
queue_topologies =
    record {
      queue = inventory_reserve;
      routing_keys = order_created ∷ [];
      retry_queue = "inventory.reserve.retry.5s";
      retry_ttl = 5 * second;
      dlq = "inventory.reserve.dlq";
    }
    ∷ record {
      queue = payments_authorize;
      routing_keys = inventory_reserved ∷ [];
      retry_queue = "payments.authorize.retry.15s";
      retry_ttl = 15 * second;
      dlq = "payments.authorize.dlq";
    }
    ∷ record {
      queue = shipments_create;
      routing_keys = payment_authorized ∷ [];
      retry_queue = "shipments.create.retry.30s";
      retry_ttl = 30 * second;
      dlq = "shipments.create.dlq";
    }
    ∷ record {
      queue = orders_finalize;
      routing_keys = shipment_created ∷ [];
      retry_queue = "orders.finalize.retry.15s";
      retry_ttl = 15 * second;
      dlq = "orders.finalize.dlq";
    }
    ∷ record {
      queue = orders_cancel;
      routing_keys = order_cancel_requested ∷ [];
      retry_queue = "orders.cancel.retry.15s";
      retry_ttl = 15 * second;
      dlq = "orders.cancel.dlq";
    }
    ∷ record {
      queue = orders_compensate;
      routing_keys = inventory_rejected ∷ payment_failed ∷ shipment_failed ∷ [];
      retry_queue = "orders.compensate.retry.15s";
      retry_ttl = 15 * second;
      dlq = "orders.compensate.dlq";
    }
    ∷ record {
      queue = notifications_email;
      routing_keys =
          order_completed ∷ order_cancelled ∷ order_manual_review_required ∷ inventory_rejected
          ∷ payment_failed ∷ shipment_failed ∷ [];
      retry_queue = "notifications.email.retry.60s";
      retry_ttl = 60 * second;
      dlq = "notifications.email.dlq";
    }
    ∷ []
