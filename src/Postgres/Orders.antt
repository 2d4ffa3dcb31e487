-- ===== src/Postgres/Orders.antt =====
-- internal/postgres/store.go: `InsertOrder`, `GetOrder`, `GetShipment` and `UpdateOrderStatus`.
use fulfillhub_go_commerce_p.Prelude.{
  suc, leb, ltb, String, Bool, true, false, not, ◌&&◌, ◌||◌, List, [], ◌∷◌, ◌++◌, any, Option, none,
  some, str_eq, if◌then◌else◌,
}
use fulfillhub_go_commerce_p.Prelude.Int64.{is_negative}
use fulfillhub_go_commerce_p.Commerce.Status.{OrderStatus, is_valid_order_status}
use fulfillhub_go_commerce_p.Commerce.Model.{Time, Order, OrderItem, ShipmentRecord}
use fulfillhub_go_commerce_p.Commerce.Event.{OutboxEvent, AuditLog, order_status_event_payload}
use fulfillhub_go_commerce_p.Commerce.Result.{Error, Op, duplicate_order, return, ◌>>=◌, ◌>>◌}
use fulfillhub_go_commerce_p.Postgres.Tables.{
  Database, OrderRow, ItemRow, IdempotencyRow, select_row, count,
}
use fulfillhub_go_commerce_p.Postgres.{
  PgError, Engine, wrap, is_unique_violation, unique_violation, check_violation, exec, exec_checked,
  query, in_transaction, some_affected,
}
use fulfillhub_go_commerce_p.Postgres.Rows.{
  is_order, update_order, nullable_string, nullable_payment, lock_for, insert_outbox_event,
  insert_audit_log, get_order_row, get_shipment_row,
}

unfoldable pub add_merchant : String → Database → Database
add_merchant id db = record db {
  merchants = if any (str_eq id) db.merchants then db.merchants else db.merchants ++ id ∷ [];
}

unfoldable pub order_row : String → Order → OrderRow
unfolding nullable_payment nullable_string
order_row merchant_id o = record {
  order_id = o.order_id;
  merchant_id = merchant_id;
  external_order_id = o.external_order_id;
  status = o.status;
  currency = o.currency;
  subtotal_amount = o.totals.subtotal.amount;
  shipping_amount = o.totals.shipping.amount;
  total_amount = o.totals.total.amount;
  payment_provider = nullable_payment (λ p. p.provider) o.payment;
  payment_status = nullable_payment (λ p. p.status) o.payment;
  payment_authorization_id = nullable_payment (λ p. p.authorization_id) o.payment;
  payment_credential_ref = nullable_payment (λ p. p.credential_ref) o.payment;
  shipping_address_ref = nullable_string o.shipping_address_ref;
  created_at = o.created_at;
  updated_at = o.updated_at;
  version = 1;
}

abbrev is_payment_status : Option String → Bool
is_payment_status none = true
is_payment_status (some s) =
    str_eq s "pending_authorization"
    || str_eq s "authorized"
    || str_eq s "failed"
    || str_eq s "voided"

abbrev is_external : String → String → OrderRow → Bool
is_external merchant_id external_order_id row =
    str_eq row.merchant_id merchant_id && str_eq row.external_order_id external_order_id

-- The constraints of `orders`: the checks on the statuses, the primary key and the unique pair.
unfoldable pub order_breach : OrderRow → Database → Option String
order_breach row db =
    if not (is_valid_order_status row.status && is_payment_status row.payment_status)
    then some check_violation
    else if any (is_order row.order_id) db.orders
        || any (is_external row.merchant_id row.external_order_id) db.orders
    then some unique_violation
    else none

unfoldable pub insert_order_error : PgError → Error
insert_order_error e = if is_unique_violation e then duplicate_order else wrap "insert order" e

unfoldable pub item_row : String → OrderItem → ItemRow
item_row order_id i = record {
  order_id = order_id;
  sku = i.sku;
  quantity = i.quantity;
  unit_price_amount = i.unit_price.amount;
  unit_price_currency = i.unit_price.currency;
  reservation_status = i.reservation_status;
}

-- The range of INTEGER, `quantity > 0`, `unit_price_amount >= 0` and `UNIQUE (order_id, sku)`.
unfoldable pub item_breach : ItemRow → Database → Option String
item_breach row db =
    if not (ltb 0 row.quantity && leb row.quantity 0x7fffffff) || is_negative row.unit_price_amount
    then some check_violation
    else if any (λ r. str_eq r.order_id row.order_id && str_eq r.sku row.sku) db.order_items
    then some unique_violation
    else none

is_key : String → String → IdempotencyRow → Bool
is_key merchant_id key row = str_eq row.merchant_id merchant_id && str_eq row.idempotency_key key

unfoldable pub key_breach : String → String → Database → Option String
unfolding is_key
key_breach merchant_id key db =
    if any (is_key merchant_id key) db.idempotency_keys then some unique_violation else none

module _ (engine : Engine) where
  unfoldable pub order_by_idempotency : String → String → Op Database (Option IdempotencyRow)
  unfolding is_key
  order_by_idempotency merchant_id key =
      query engine "lookup idempotency key"
        (λ db. select_row (is_key merchant_id key) db.idempotency_keys)

  unfoldable pub insert_order_row : String → Order → Op Database (Unit {0})
  unfolding insert_order_error order_breach
  insert_order_row merchant_id order =
      exec_checked engine "insert order" insert_order_error
        (order_breach (order_row merchant_id order))
        (λ db. record db { orders = db.orders ++ order_row merchant_id order ∷ [] })

  unfoldable pub insert_items : String → List OrderItem → Op Database (Unit {0})
  unfolding item_row item_breach
  insert_items order_id [] = return tt
  insert_items order_id (item ∷ items) = do
    exec_checked engine "insert order item" (wrap "insert order item")
        (item_breach (item_row order_id item))
        (λ db. record db { order_items = db.order_items ++ item_row order_id item ∷ [] })
    insert_items order_id items

  unfoldable pub insert_key : String → String → String → Op Database (Unit {0})
  unfolding key_breach
  insert_key merchant_id key order_id =
      exec_checked engine "insert idempotency key" (wrap "insert idempotency key")
        (key_breach merchant_id key)
        (λ db. record db {
          idempotency_keys =
              db.idempotency_keys
              ++ record { merchant_id = merchant_id; idempotency_key = key; order_id = order_id }
                ∷ [];
        })

  unfoldable pub insert_new :
      String → String → Order → OutboxEvent → AuditLog → Op Database (Order × Bool)
  unfolding insert_order_row insert_items insert_key
  insert_new merchant_id key order event audit = do
    exec engine "upsert merchant" (add_merchant merchant_id)
    insert_order_row merchant_id order
    insert_items order.order_id order.items
    insert_key merchant_id key order.order_id
    insert_outbox_event engine event
    insert_audit_log engine audit
    return (order, false)

  unfoldable pub insert_or_replay :
      String
      → String
      → Order
      → OutboxEvent
      → AuditLog
      → Option IdempotencyRow
      → Op Database (Order × Bool)
  unfolding insert_new
  insert_or_replay merchant_id key order event audit (some row) = do
    existing ← get_order_row engine row.order_id
    return (existing, true)
  insert_or_replay merchant_id key order event audit none =
      insert_new merchant_id key order event audit

  commit_of_insert : Order × Bool → String
  commit_of_insert (order, replayed) =
      if replayed then "commit idempotent order lookup" else "commit insert order"

  unfoldable pub insert_order :
      String → String → Order → OutboxEvent → AuditLog → Op Database (Order × Bool)
  unfolding insert_or_replay commit_of_insert order_by_idempotency
  insert_order merchant_id key order event audit =
      in_transaction engine "begin insert order" commit_of_insert (
        order_by_idempotency merchant_id key >>= insert_or_replay merchant_id key order event audit)

  unfoldable pub get_order : String → Op Database Order
  get_order id = get_order_row engine id

  unfoldable pub get_shipment : String → Op Database ShipmentRecord
  get_shipment id = get_shipment_row engine id

  unfoldable pub set_order : String → String → (OrderRow → OrderRow) → Op Database (Unit {0})
  set_order label id f =
      exec engine label (update_order id (λ row. f (record row { version = suc row.version })))

  -- The update with its count of affected rows.
  unfoldable pub set_order_counted :
      String → String → (OrderRow → OrderRow) → Op Database (Unit {0})
  unfolding set_order
  set_order_counted label id f = do
    rows ← query engine label (λ db. count (is_order id) db.orders)
    set_order label id f
    some_affected rows

  unfoldable pub advance_counted : String → String → OrderStatus → Time → Op Database (Unit {0})
  unfolding set_order_counted
  advance_counted label id status at =
      set_order_counted label id (λ row. record row { status = status; updated_at = at })

  unfoldable pub update_order_status :
      String → OrderStatus → Time → OutboxEvent → AuditLog → Op Database Order
  unfolding advance_counted
  update_order_status id status now event audit =
      in_transaction engine "begin update order status" (λ o. "commit update order status")
        (do
          lock_for engine id status
          advance_counted "update order status" id status now
          insert_outbox_event engine
              (record event { payload = order_status_event_payload status now audit event.payload })
          insert_audit_log engine audit
          get_order_row engine id)
