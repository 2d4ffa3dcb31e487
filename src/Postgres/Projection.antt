-- ===== src/Postgres/Projection.antt =====
-- internal/postgres/store.go: the `Record…` methods of `Store`, which the workers call.
use fulfillhub_go_commerce_p.Prelude.{String, none, some, get_or}
use fulfillhub_go_commerce_p.Json.{field, text, array, end}
use fulfillhub_go_commerce_p.Commerce.Status.{OrderStatus, status_text}
use fulfillhub_go_commerce_p.Commerce.Model.{Time, ReservationStatus, Payment, Shipment}
use fulfillhub_go_commerce_p.Commerce.Event.{
  EventType, OutboxEvent, AuditLog, detail, order_status_event_payload, failure_payload,
}
use fulfillhub_go_commerce_p.Commerce.Result.{Op, return, ◌>>=◌, ◌>>◌}
use fulfillhub_go_commerce_p.Postgres.Tables.{Database, OrderRow, select_row}
use fulfillhub_go_commerce_p.Postgres.{
  Engine, wrap, exec, exec_checked, query, found, in_transaction,
}
use fulfillhub_go_commerce_p.Postgres.Rows.{
  is_order, update_items, lock_for, insert_outbox_event, insert_audit_log, get_order_row,
}
use fulfillhub_go_commerce_p.Postgres.Stock.{
  order_items_for_reservation, reserve_items, release_reserved_stock, void_authorized_payment,
}
use fulfillhub_go_commerce_p.Postgres.Writes.{
  reservations, paid_provider, payment_breach, set_payment, paid_payload, shipment_breach,
  set_shipment, shipped_payload, set_notification, set_compensation,
}
use fulfillhub_go_commerce_p.Postgres.Orders.{set_order, advance_counted}

module _ (engine : Engine) where
  -- A transaction that gives no value.
  abbrev transact : String → String → Op Database (Unit {0}) → Op Database (Unit {0})
  transact begin commit = in_transaction engine begin (λ u. commit)

  -- The outbox event and the audit record that end a method.
  unfoldable pub publish : OutboxEvent → AuditLog → Op Database (Unit {0})
  publish event audit = do insert_outbox_event engine event; insert_audit_log engine audit

  unfoldable pub advance_order : String → String → OrderStatus → Time → Op Database (Unit {0})
  advance_order label id status at =
      set_order engine label id (λ row. record row { status = status; updated_at = at })

  unfoldable pub touch_order : String → String → Time → Op Database (Unit {0})
  touch_order label id at = set_order engine label id (λ row. record row { updated_at = at })

  unfoldable pub record_inventory_reserved :
      OutboxEvent → OutboxEvent → AuditLog → Op Database (Unit {0})
  unfolding reservations publish advance_order
  record_inventory_reserved source next audit =
      transact "begin record inventory reservation" "commit record inventory reservation" (do
        lock_for engine source.order_id OrderStatus.inventory_reserved
        items ← order_items_for_reservation engine source.order_id
        reserved ← reserve_items engine source.merchant_id source.order_id next.occurred_at items
        exec engine "mark order items reserved" (
            update_items source.order_id
              (λ i. record i { reservation_status = ReservationStatus.reserved }))
        advance_order "touch order after inventory reservation" source.order_id
            OrderStatus.inventory_reserved next.occurred_at
        publish
            (record next {
              payload =
                  field "order_status" (text (status_text OrderStatus.inventory_reserved))
                    (field "reservations" (array (reservations reserved)) end);
            })
            audit)

  unfoldable pub record_inventory_rejected :
      OutboxEvent → OutboxEvent → AuditLog → Op Database (Unit {0})
  unfolding publish touch_order
  record_inventory_rejected source next audit =
      transact "begin record inventory rejection" "commit record inventory rejection" (do
        order ← get_order_row engine source.order_id
        exec engine "mark order items rejected" (
            update_items source.order_id
              (λ i. record i { reservation_status = ReservationStatus.rejected }))
        touch_order "touch order after inventory rejection" source.order_id next.occurred_at
        publish (record next { payload = failure_payload "inventory" (detail audit "error") })
            audit)

  unfoldable pub authorize :
      OutboxEvent → OutboxEvent → Payment → AuditLog → OrderRow → Op Database (Unit {0})
  unfolding publish payment_breach set_payment paid_payload paid_provider
  authorize source next payment audit row = do
    let provider = paid_provider payment.provider row
    exec_checked engine "upsert payment authorization" (wrap "upsert payment authorization")
        (payment_breach source.order_id payment row)
        (set_payment source payment provider row next.occurred_at)
    set_order engine "update order payment authorization" source.order_id (λ r. record r {
      status = OrderStatus.payment_authorized;
      payment_provider = some provider;
      payment_status = some payment.status;
      payment_authorization_id = some payment.authorization_id;
      updated_at = next.occurred_at;
    })
    publish (record next { payload = paid_payload row provider payment }) audit

  unfoldable pub record_payment_authorized :
      OutboxEvent → OutboxEvent → Payment → AuditLog → Op Database (Unit {0})
  unfolding authorize
  record_payment_authorized source next payment audit =
      transact "begin record payment authorization" "commit record payment authorization" (do
        lock_for engine source.order_id OrderStatus.payment_authorized
        row ←
            query engine "load order for payment authorization"
              (λ db. select_row (is_order source.order_id) db.orders)
        row ← found row
        authorize source next payment audit row)

  unfoldable pub record_payment_failed :
      OutboxEvent → OutboxEvent → AuditLog → Op Database (Unit {0})
  unfolding publish
  record_payment_failed source next audit =
      transact "begin record payment failure" "commit record payment failure" (do
        row ←
            query engine "load order for payment failure"
              (λ db. select_row (is_order source.order_id) db.orders)
        row ← found row
        set_order engine "update order payment failure" source.order_id (λ r. record r {
          payment_provider = some (get_or row.payment_provider "fake-payment");
          payment_status = some "failed";
          payment_authorization_id = none;
          updated_at = next.occurred_at;
        })
        publish (record next { payload = failure_payload "payment" (detail audit "error") }) audit)

  unfoldable pub record_shipment_created :
      OutboxEvent → OutboxEvent → Shipment → AuditLog → Op Database (Unit {0})
  unfolding publish advance_order shipment_breach set_shipment shipped_payload
  record_shipment_created source next shipment audit =
      transact "begin record shipment" "commit record shipment" (do
        lock_for engine source.order_id OrderStatus.shipment_created
        order ← get_order_row engine source.order_id
        exec_checked engine "upsert shipment" (wrap "upsert shipment")
            (shipment_breach source.order_id shipment)
            (set_shipment source shipment next.occurred_at)
        advance_order "touch order after shipment" source.order_id OrderStatus.shipment_created
            next.occurred_at
        publish (record next { payload = shipped_payload shipment }) audit)

  unfoldable pub record_shipment_failed :
      OutboxEvent → OutboxEvent → AuditLog → Op Database (Unit {0})
  unfolding publish touch_order
  record_shipment_failed source next audit =
      transact "begin record shipment failure" "commit record shipment failure" (do
        order ← get_order_row engine source.order_id
        touch_order "touch order after shipment failure" source.order_id next.occurred_at
        publish (record next { payload = failure_payload "shipment" (detail audit "error") }) audit)

  unfoldable pub record_order_cancelled :
      OutboxEvent → OutboxEvent → AuditLog → Op Database (Unit {0})
  unfolding publish advance_counted
  record_order_cancelled source next audit =
      transact "begin record order cancellation" "commit record order cancellation" (do
        lock_for engine source.order_id OrderStatus.cancelled
        advance_counted engine "update cancelled order status" source.order_id OrderStatus.cancelled
            next.occurred_at
        release_reserved_stock engine source.order_id next.occurred_at
        void_authorized_payment engine source.order_id next.occurred_at
        publish
            (record next {
              payload =
                  order_status_event_payload OrderStatus.cancelled next.occurred_at audit
                    next.payload;
            })
            audit)

  unfoldable pub record_notification_queued : OutboxEvent → AuditLog → Op Database (Unit {0})
  unfolding set_notification
  record_notification_queued source audit =
      transact "begin record notification" "commit record notification" (do
        order ← get_order_row engine source.order_id
        exec engine "upsert notification event" (set_notification source audit)
        insert_audit_log engine audit)

  unfoldable pub apply_compensation_effects : EventType → String → Time → Op Database (Unit {0})
  apply_compensation_effects EventType.payment_failed id at = release_reserved_stock engine id at
  apply_compensation_effects EventType.shipment_failed id at = do
    release_reserved_stock engine id at
    void_authorized_payment engine id at
  apply_compensation_effects _ id at = return tt

  unfoldable pub record_compensation : OutboxEvent → OrderStatus → AuditLog → Op Database (Unit {0})
  unfolding advance_counted apply_compensation_effects set_compensation
  record_compensation source status audit =
      transact "begin record compensation" "commit record compensation" (do
        lock_for engine source.order_id status
        advance_counted engine "update compensated order status" source.order_id status
            audit.created_at
        apply_compensation_effects source.event_type source.order_id audit.created_at
        exec engine "upsert compensation event" (set_compensation source status audit)
        insert_audit_log engine audit)

  unfoldable pub record_audit_log : AuditLog → Op Database (Unit {0})
  record_audit_log audit =
      transact "begin record audit log" "commit record audit log" (insert_audit_log engine audit)
