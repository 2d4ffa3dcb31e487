-- ===== src/Commerce/Store/Projection.antt =====
-- internal/commerce/store.go: the `Record…` methods of `MemoryStore`, which the workers call.
use fulfillhub_go_commerce_p.Prelude.{
  String, List, [], ◌∷◌, map, Option, none, some, str_eq, if◌then◌else◌,
}
use fulfillhub_go_commerce_p.Json.{
  Fields, Value, Items, end, field, text, number, object, array, nil, cons,
}
use fulfillhub_go_commerce_p.Commerce.Status.{OrderStatus, status_text}
use fulfillhub_go_commerce_p.Commerce.Model.{
  Time, Order, OrderItem, ReservationStatus, Payment, Shipment, is_reserved,
}
use fulfillhub_go_commerce_p.Commerce.Event.{
  EventType, OutboxEvent, AuditLog, detail, order_status_event_payload, failure_payload,
}
use fulfillhub_go_commerce_p.Commerce.Result.{Op, modify, ◌>>=◌, ◌>>◌}
use fulfillhub_go_commerce_p.Commerce.Store.{
  MemoryStore, append_audit, find_order, save_order, check_transition, emit,
}

abbrev pub mark : ReservationStatus → OrderItem → OrderItem
mark status item = record item { reservation_status = status }

abbrev pub release_reserved : OrderItem → OrderItem
release_reserved item =
    if is_reserved item.reservation_status then mark ReservationStatus.released item else item

-- `if order.Payment != nil && order.Payment.Status == "authorized" { … = "voided" }`
abbrev pub void_authorized : Option Payment → Option Payment
void_authorized none = none
void_authorized (some payment) =
    if str_eq payment.status "authorized"
    then some (record payment { status = "voided" })
    else some payment

reservation : OrderItem → Value
reservation item = object (
    field "sku" (text item.sku)
      (field "quantity" (number item.quantity) (field "warehouse_id" (text "memory") end)))

reservations : List OrderItem → Items
unfolding reservation
reservations [] = nil
reservations (item ∷ items) = cons (reservation item) (reservations items)

reserved_payload : List OrderItem → Fields
unfolding reservations
reserved_payload items =
    field "order_status" (text (status_text OrderStatus.inventory_reserved))
      (field "reservations" (array (reservations items)) end)

unfoldable pub record_inventory_reserved :
    OutboxEvent → OutboxEvent → AuditLog → Op MemoryStore (Unit {0})
unfolding find_order check_transition save_order emit reserved_payload
record_inventory_reserved source next audit = do
  order ← find_order source.order_id
  check_transition order.status OrderStatus.inventory_reserved
  save_order source.order_id (record order {
    items = map (mark ReservationStatus.reserved) order.items;
    status = OrderStatus.inventory_reserved;
    updated_at = next.occurred_at;
  })
  emit (record next { payload = reserved_payload order.items }) audit

unfoldable pub record_inventory_rejected :
    OutboxEvent → OutboxEvent → AuditLog → Op MemoryStore (Unit {0})
unfolding find_order save_order emit
record_inventory_rejected source next audit = do
  order ← find_order source.order_id
  save_order source.order_id (record order {
    items = map (mark ReservationStatus.rejected) order.items;
    updated_at = next.occurred_at;
  })
  emit (record next { payload = failure_payload "inventory" (detail audit "error") }) audit

-- `if payment.Provider == "" && order.Payment != nil { payment.Provider = order.Payment.Provider }`
inherit_provider : Payment → Option Payment → Payment
inherit_provider payment none = payment
inherit_provider payment (some old) =
    if str_eq payment.provider "" then record payment { provider = old.provider } else payment

authorized_payload : Order → Payment → Fields
authorized_payload order payment =
    field "order_status" (text (status_text OrderStatus.payment_authorized)) (
      field "payment"
        (object (
          field "provider" (text payment.provider) (
            field "authorization_id" (text payment.authorization_id) (
              field "amount" (number order.totals.total.amount)
                (field "currency" (text order.currency) end)))))
        end)

unfoldable pub record_payment_authorized :
    OutboxEvent → OutboxEvent → Payment → AuditLog → Op MemoryStore (Unit {0})
unfolding find_order check_transition save_order emit inherit_provider authorized_payload
record_payment_authorized source next payment audit = do
  order ← find_order source.order_id
  let paid = inherit_provider payment order.payment
  check_transition order.status OrderStatus.payment_authorized
  save_order source.order_id (record order {
    payment = some paid;
    status = OrderStatus.payment_authorized;
    updated_at = next.occurred_at;
  })
  emit (record next { payload = authorized_payload order paid }) audit

failed_provider : Option Payment → String
failed_provider none = "fake-payment"
failed_provider (some old) = if str_eq old.provider "" then "fake-payment" else old.provider

unfoldable pub record_payment_failed :
    OutboxEvent → OutboxEvent → AuditLog → Op MemoryStore (Unit {0})
unfolding find_order save_order emit failed_provider
record_payment_failed source next audit = do
  order ← find_order source.order_id
  save_order source.order_id (record order {
    payment = some (record {
      provider = failed_provider order.payment;
      status = "failed";
      authorization_id = "";
      credential_ref = "";
    });
    updated_at = next.occurred_at;
  })
  emit (record next { payload = failure_payload "payment" (detail audit "error") }) audit

created_payload : Shipment → Fields
created_payload shipment = field "order_status" (text (status_text OrderStatus.shipment_created)) (
    field "shipment"
      (object (
        field "shipment_id" (text shipment.shipment_id) (
          field "carrier" (text shipment.carrier)
            (field "tracking_number" (text shipment.tracking_number) end))))
      end)

unfoldable pub record_shipment_created :
    OutboxEvent → OutboxEvent → Shipment → AuditLog → Op MemoryStore (Unit {0})
unfolding find_order check_transition save_order emit created_payload
record_shipment_created source next shipment audit = do
  order ← find_order source.order_id
  check_transition order.status OrderStatus.shipment_created
  save_order source.order_id (record order {
    shipment = some shipment;
    status = OrderStatus.shipment_created;
    updated_at = next.occurred_at;
  })
  emit (record next { payload = created_payload shipment }) audit

unfoldable pub record_shipment_failed :
    OutboxEvent → OutboxEvent → AuditLog → Op MemoryStore (Unit {0})
unfolding find_order save_order emit
record_shipment_failed source next audit = do
  order ← find_order source.order_id
  save_order source.order_id (record order {
    shipment = some (record {
      shipment_id = "";
      status = "failed";
      carrier = "";
      tracking_number = "";
      events = [];
    });
    updated_at = next.occurred_at;
  })
  emit (record next { payload = failure_payload "shipment" (detail audit "error") }) audit

unfoldable pub record_order_cancelled :
    OutboxEvent → OutboxEvent → AuditLog → Op MemoryStore (Unit {0})
unfolding find_order check_transition save_order emit
record_order_cancelled source next audit = do
  order ← find_order source.order_id
  check_transition order.status OrderStatus.cancelled
  save_order source.order_id (record order {
    status = OrderStatus.cancelled;
    updated_at = next.occurred_at;
    items = map release_reserved order.items;
    payment = void_authorized order.payment;
  })
  emit
      (record next {
        payload =
            order_status_event_payload OrderStatus.cancelled next.occurred_at audit next.payload;
      })
      audit

unfoldable pub record_notification_queued : OutboxEvent → AuditLog → Op MemoryStore (Unit {0})
unfolding find_order append_audit
record_notification_queued source audit = do
  find_order source.order_id >>= λ order. modify (append_audit audit)

unfoldable pub compensated_items : EventType → List OrderItem → List OrderItem
compensated_items EventType.payment_failed items = map release_reserved items
compensated_items EventType.shipment_failed items = map release_reserved items
compensated_items _ items = items

compensated_payment : EventType → Option Payment → Option Payment
compensated_payment EventType.shipment_failed payment = void_authorized payment
compensated_payment _ payment = payment

unfoldable pub compensated : EventType → OrderStatus → Time → Order → Order
unfolding compensated_items compensated_payment
compensated event_type status at order = record order {
  status = status;
  updated_at = at;
  items = compensated_items event_type order.items;
  payment = compensated_payment event_type order.payment;
}

-- No event is appended here: the audit record is the only trace besides the order.
unfoldable pub record_compensation :
    OutboxEvent → OrderStatus → AuditLog → Op MemoryStore (Unit {0})
unfolding find_order check_transition save_order append_audit compensated
record_compensation source status audit = do
  order ← find_order source.order_id
  check_transition order.status status
  save_order source.order_id (compensated source.event_type status audit.created_at order)
  modify (append_audit audit)
