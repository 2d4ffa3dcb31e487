-- ===== src/Postgres/Rows.antt =====
-- internal/postgres/store.go: the helpers under the methods, from `lockOrderStatusForUpdate` on.
use fulfillhub_go_commerce_p.Prelude.{
  String, Bool, ◌||◌, List, [], ◌∷◌, ◌++◌, any, Option, none, some, str_eq, if◌then◌else◌, get_or,
  is_some, ◌==◌,
}
use fulfillhub_go_commerce_p.Commerce.Status.{OrderStatus, validate_order_transition}
use fulfillhub_go_commerce_p.Commerce.Model.{
  Time, Order, OrderItem, Payment, Shipment, ShipmentRecord, ShipmentEvent,
}
use fulfillhub_go_commerce_p.Commerce.Event.{
  EventType, OutboxEvent, AuditLog, with_envelope_defaults, event_type_text,
}
use fulfillhub_go_commerce_p.Commerce.Result.{
  Op, ok, err, invalid_state_transition, return, fail, Result, ◌>>=◌,
}
use fulfillhub_go_commerce_p.Postgres.Tables.{
  Database, OrderRow, ItemRow, ShipmentRow, OutboxRow, select, select_row, update,
}
use fulfillhub_go_commerce_p.Postgres.{
  Engine, wrap, wrap_error, exec, exec_checked, query, found, unique_violation,
  foreign_key_violation,
}

unfoldable pub nullable_string : String → Option String
nullable_string value = if str_eq value "" then none else some value

unfoldable pub nullable_payment : (Payment → String) → Option Payment → Option String
unfolding nullable_string
nullable_payment column none = none
nullable_payment column (some payment) = nullable_string (column payment)

abbrev pub is_order : String → OrderRow → Bool
is_order id row = str_eq row.order_id id

abbrev pub is_item_of : String → ItemRow → Bool
is_item_of id row = str_eq row.order_id id

-- UPDATE orders SET f, version = version + 1 WHERE order_id = id
unfoldable pub update_order : String → (OrderRow → OrderRow) → Database → Database
update_order id f db = record db { orders = update (is_order id) f db.orders }

unfoldable pub update_items : String → (ItemRow → ItemRow) → Database → Database
update_items id f db = record db { order_items = update (is_item_of id) f db.order_items }

unfoldable pub outbox_row : OutboxEvent → String → OutboxRow
outbox_row e text = record {
  message_id = e.message_id;
  correlation_id = e.correlation_id;
  causation_id = e.causation_id;
  event_type = e.event_type;
  order_id = e.order_id;
  merchant_id = e.merchant_id;
  payload = text;
  occurred_at = e.occurred_at;
  published_at = none;
  claimed_until = none;
}

-- The primary key of `outbox_events`, and its reference to `orders`.
unfoldable pub outbox_breach : OutboxEvent → Database → Option String
outbox_breach e db =
    if any (λ row. str_eq row.message_id e.message_id) db.outbox_events
    then some unique_violation
    else if any (is_order e.order_id) db.orders
    then none
    else some foreign_key_violation

unfoldable pub append_outbox : OutboxEvent → String → Database → Database
unfolding outbox_row
append_outbox e text db = record db { outbox_events = db.outbox_events ++ outbox_row e text ∷ [] }

module _ (engine : Engine) where
  unfoldable pub lock_order_status : String → Op Database OrderStatus
  lock_order_status id = do
    row ← query engine "lock order status" (λ db. select_row (is_order id) db.orders)
    row ← found row
    return row.status

  -- `commerce.ValidateOrderTransition` and the return of its error.
  unfoldable pub validate_transition : OrderStatus → OrderStatus → Op Database (Unit {0})
  validate_transition from to db = elim (validate_order_transition from to) [
    | none ↦ (ok tt, db)
    | some issue ↦ (err (invalid_state_transition (some issue)), db)
  ]

  -- The lock on the row, and the test of the target status.
  unfoldable pub lock_for : String → OrderStatus → Op Database (Unit {0})
  lock_for id status = do current ← lock_order_status id; validate_transition current status

  unfoldable pub insert_encoded : OutboxEvent → Result String → Op Database (Unit {0})
  unfolding outbox_breach append_outbox
  insert_encoded event (err e) = fail (wrap_error "marshal outbox event" e)
  insert_encoded event (ok text) =
      exec_checked engine "insert outbox event" (wrap "insert outbox event") (outbox_breach event)
        (append_outbox event text)

  unfoldable pub insert_outbox_event : OutboxEvent → Op Database (Unit {0})
  unfolding insert_encoded
  insert_outbox_event event =
      insert_encoded (with_envelope_defaults event) (engine.marshal (with_envelope_defaults event))

  -- The NULL that stands for an empty order id reads as "" again, and a nil map as an empty one.
  unfoldable pub insert_audit_log : AuditLog → Op Database (Unit {0})
  insert_audit_log audit =
      exec engine "insert audit log" (λ db. record db { audit_logs = db.audit_logs ++ audit ∷ [] })

-- `if envelope.X == "" { envelope.X = event.X }`
unfoldable pub or_column : String → String → String
or_column x column = if str_eq x "" then column else x

unfoldable pub type_or_column : EventType → EventType → EventType
type_or_column x column = if str_eq (event_type_text x) "" then column else x

unfoldable pub time_or_column : Time → Time → Time
time_or_column x column = if x == 0 then column else x

-- The decoded envelope of a row, with the columns where it is empty.
unfoldable pub merged_envelope : Engine → OutboxRow → OutboxEvent → OutboxEvent
unfolding or_column type_or_column time_or_column
merged_envelope engine row envelope = record {
  message_id = or_column envelope.message_id row.message_id;
  event_type = type_or_column envelope.event_type row.event_type;
  schema_version = envelope.schema_version;
  occurred_at = time_or_column envelope.occurred_at (engine.read_time row.occurred_at);
  producer = envelope.producer;
  merchant_id = or_column envelope.merchant_id row.merchant_id;
  order_id = or_column envelope.order_id row.order_id;
  correlation_id = or_column envelope.correlation_id row.correlation_id;
  causation_id = or_column envelope.causation_id row.causation_id;
  payload = envelope.payload;
}

decoded : Engine → OutboxRow → Result OutboxEvent → Result OutboxEvent
unfolding merged_envelope
decoded engine row (err e) = err e
decoded engine row (ok envelope) = ok (with_envelope_defaults (merged_envelope engine row envelope))

-- The payload of a row is JSON and so never empty.
unfoldable pub scan_outbox_event : Engine → OutboxRow → Result OutboxEvent
unfolding decoded
scan_outbox_event engine row = decoded engine row (engine.unmarshal row.payload)

and_then : OutboxEvent → Result (List OutboxEvent) → Result (List OutboxEvent)
and_then event (err e) = err e
and_then event (ok events) = ok (with_envelope_defaults event ∷ events)

scanned : Result OutboxEvent → Result (List OutboxEvent) → Result (List OutboxEvent)
unfolding and_then
scanned (err e) rest = err e
scanned (ok event) rest = and_then event rest

-- The loop over the rows, which returns at the first row that does not scan.
unfoldable pub scan_outbox_events : Engine → List OutboxRow → Result (List OutboxEvent)
unfolding scan_outbox_event scanned
scan_outbox_events engine [] = ok []
scan_outbox_events engine (row ∷ rows) =
    scanned (scan_outbox_event engine row) (scan_outbox_events engine rows)

unfoldable pub order_items_of : Engine → List ItemRow → List OrderItem
order_items_of engine [] = []
order_items_of engine (row ∷ rows) =
    (record {
      sku = row.sku;
      quantity = row.quantity;
      unit_price = record {
        amount = row.unit_price_amount;
        currency = engine.read_code row.unit_price_currency;
      };
      reservation_status = row.reservation_status;
    })
    ∷ order_items_of engine rows

projected : Time → String → List ShipmentEvent
projected created_at status =
    (record {
      occurred_at = created_at;
      status = status;
      description = "Shipment projection created.";
    })
    ∷ []

unfoldable pub shipment_of : Engine → ShipmentRow → Shipment
unfolding projected
shipment_of engine row = record {
  shipment_id = row.shipment_id;
  status = row.status;
  carrier = row.carrier;
  tracking_number = row.tracking_number;
  events = projected (engine.read_time row.created_at) row.status;
}

-- A payment is there where one of its three columns is not NULL.
unfoldable pub payment_of : OrderRow → Option Payment
payment_of row =
    if is_some row.payment_provider
      || is_some row.payment_status
      || is_some row.payment_authorization_id
    then some (record {
      provider = get_or row.payment_provider "";
      status = get_or row.payment_status "";
      authorization_id = get_or row.payment_authorization_id "";
      credential_ref = get_or row.payment_credential_ref "";
    })
    else none

unfoldable pub order_of : Engine → OrderRow → List ItemRow → Option ShipmentRow → Order
unfolding payment_of shipment_of
order_of engine row items shipment = record {
  order_id = row.order_id;
  merchant_id = row.merchant_id;
  external_order_id = row.external_order_id;
  status = row.status;
  currency = engine.read_code row.currency;
  totals = record {
    subtotal = record { amount = row.subtotal_amount; currency = engine.read_code row.currency };
    shipping = record { amount = row.shipping_amount; currency = engine.read_code row.currency };
    total = record { amount = row.total_amount; currency = engine.read_code row.currency };
  };
  items = order_items_of engine items;
  payment = payment_of row;
  shipment = elim shipment [ none ↦ none | some s ↦ some (shipment_of engine s) ];
  shipping_address_ref = get_or row.shipping_address_ref "";
  created_at = engine.read_time row.created_at;
  updated_at = engine.read_time row.updated_at;
}

unfoldable pub shipment_record_of : Engine → ShipmentRow → ShipmentRecord
unfolding projected
shipment_record_of engine row = record {
  shipment_id = row.shipment_id;
  order_id = row.order_id;
  merchant_id = row.merchant_id;
  carrier = row.carrier;
  tracking_number = row.tracking_number;
  status = row.status;
  events = projected (engine.read_time row.created_at) row.status;
}

module _ (engine : Engine) where
  -- `getOrderTx`; an order has one shipment at most.
  unfoldable pub get_order_row : String → Op Database Order
  get_order_row id = do
    row ← query engine "get order" (λ db. select_row (is_order id) db.orders)
    row ← found row
    items ← query engine "get order items" (λ db. select (is_item_of id) db.order_items)
    shipment ←
        query engine "get shipment" (λ db. select_row (λ s. str_eq s.order_id id) db.shipments)
    return (order_of engine row items shipment)

  unfoldable pub get_shipment_row : String → Op Database ShipmentRecord
  get_shipment_row id = do
    row ← query engine "get shipment" (λ db. select_row (λ s. str_eq s.shipment_id id) db.shipments)
    row ← found row
    return (shipment_record_of engine row)
