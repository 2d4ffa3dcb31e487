-- ===== src/Commerce/Store.antt =====
-- internal/commerce/store.go: `MemoryStore`. A method under the mutex is one atomic operation on the
-- record. Orders are values here, which is what `cloneOrder` gives the callers in Go.
pub mod Projection
pub mod Outbox
pub mod Move
pub mod Outcome
pub mod Invariant
pub mod Counts
pub mod History
use fulfillhub_go_commerce_p.Prelude.{
  ℕ, String, ◌==◌, Bool, true, false, List, [], ◌∷◌, ◌++◌, map, Option, none, some, str_eq,
  if◌then◌else◌, get_or, not, ◌&&◌, ◌||◌,
}
use fulfillhub_go_commerce_p.Dict
use fulfillhub_go_commerce_p.Dict.{Dict}
use fulfillhub_go_commerce_p.Json.{
  Fields, Value, Items, end, field, text, number, object, array, nil, cons,
}
use fulfillhub_go_commerce_p.Commerce.Keys.{scoped_key}
use fulfillhub_go_commerce_p.Commerce.Status.{OrderStatus, status_text, validate_order_transition}
use fulfillhub_go_commerce_p.Commerce.Model.{
  Time, Order, OrderItem, ReservationStatus, Payment, Shipment, ShipmentRecord, ShipmentEvent,
  is_reserved,
}
use fulfillhub_go_commerce_p.Commerce.Event.{
  EventType, OutboxEvent, AuditLog, detail, with_envelope_defaults, order_status_event_payload,
  failure_payload,
}
use fulfillhub_go_commerce_p.Commerce.Result.{
  Error, Result, Op, ok, err, duplicate_order, not_found, invalid_state_transition, return, fail,
  gets, or_fail, modify, ◌>>=◌, ◌>>◌,
}

pub record MemoryStore : Type 0 where
  pub orders : Dict Order
  pub orders_by_external : Dict String
  pub orders_by_idempotency : Dict String
  pub outbox : List OutboxEvent
  pub audit_logs : List AuditLog
  pub published_outbox : Dict Time
  pub claimed_outbox : Dict Time

unfoldable pub new_memory_store : MemoryStore
new_memory_store = record {
  orders = Dict.empty;
  orders_by_external = Dict.empty;
  orders_by_idempotency = Dict.empty;
  outbox = [];
  audit_logs = [];
  published_outbox = Dict.empty;
  claimed_outbox = Dict.empty;
}

unfoldable pub append_outbox_event : OutboxEvent → MemoryStore → MemoryStore
append_outbox_event event s = record s { outbox = s.outbox ++ with_envelope_defaults event ∷ [] }

unfoldable pub append_audit : AuditLog → MemoryStore → MemoryStore
append_audit audit s = record s { audit_logs = s.audit_logs ++ audit ∷ [] }

-- `order, ok := s.orders[id]` with its `ErrNotFound`.
unfoldable pub find_order : String → Op MemoryStore Order
find_order id s = or_fail (Dict.get s.orders id) not_found s

-- The writes through the pointer that `s.orders[id]` holds.
unfoldable pub save_order : String → Order → Op MemoryStore (Unit {0})
save_order id order = modify λ s. record s { orders = Dict.put s.orders id order }

-- `ValidateOrderTransition` and the early return on its error.
unfoldable pub check_transition : OrderStatus → OrderStatus → Op MemoryStore (Unit {0})
check_transition from to s = elim (validate_order_transition from to) [
  | none ↦ (ok tt, s)
  | some issue ↦ (err (invalid_state_transition (some issue)), s)
]

-- The two appends that end a projection.
unfoldable pub emit : OutboxEvent → AuditLog → Op MemoryStore (Unit {0})
unfolding append_outbox_event append_audit
emit event audit = modify λ s. append_audit audit (append_outbox_event event s)

-- A replayed key gives the stored order; `none` stands for the nil of a dangling reference.
unfoldable pub insert_order :
    String → String → Order → OutboxEvent → AuditLog → Op MemoryStore (Option Order × Bool)
insert_order merchant_id idempotency_key order event audit s =
    elim (Dict.get s.orders_by_idempotency (scoped_key merchant_id idempotency_key)) [
      | some existing ↦ (ok (Dict.get s.orders existing, true), s)
      | none ↦
          if Dict.has s.orders_by_external (scoped_key merchant_id order.external_order_id)
          then (err duplicate_order, s)
          else (
            ok (some order, false),
            append_audit audit (
                append_outbox_event event (record s {
                  orders = Dict.put s.orders order.order_id order;
                  orders_by_external =
                      Dict.put s.orders_by_external (scoped_key merchant_id order.external_order_id)
                        order.order_id;
                  orders_by_idempotency =
                      Dict.put s.orders_by_idempotency (scoped_key merchant_id idempotency_key)
                        order.order_id;
                })),
          )
    ]

unfoldable pub get_order : String → Op MemoryStore Order
unfolding find_order
get_order id = find_order id

abbrev shipment_record : Order → Shipment → ShipmentRecord
shipment_record order shipment = record {
  shipment_id = shipment.shipment_id;
  order_id = order.order_id;
  merchant_id = order.merchant_id;
  carrier = shipment.carrier;
  tracking_number = shipment.tracking_number;
  status = shipment.status;
  events = shipment.events;
}

unfoldable pub shipment_record_from_order : Order → Option ShipmentRecord
shipment_record_from_order order = elim order.shipment [
  | none ↦ none
  | some shipment ↦ some (shipment_record order shipment)
]

has_shipment : String → Option Shipment → Bool
has_shipment id none = false
has_shipment id (some shipment) = str_eq shipment.shipment_id id

find_shipment : String → List Order → Option ShipmentRecord
unfolding has_shipment shipment_record_from_order
find_shipment id [] = none
find_shipment id (order ∷ orders) =
    if has_shipment id order.shipment
    then shipment_record_from_order order
    else find_shipment id orders

-- The `range` over the map may take any order; this is the one of `Dict.values`.
unfoldable pub get_shipment : String → Op MemoryStore ShipmentRecord
unfolding find_shipment
get_shipment id s = or_fail (find_shipment id (Dict.values s.orders)) not_found s

unfoldable pub update_order_status :
    String → OrderStatus → Time → OutboxEvent → AuditLog → Op MemoryStore Order
unfolding find_order check_transition save_order emit
update_order_status id status now event audit = do
  order ← find_order id
  check_transition order.status status
  save_order id (record order { status = status; updated_at = now })
  emit (record event { payload = order_status_event_payload status now audit event.payload }) audit
  return (record order { status = status; updated_at = now })
