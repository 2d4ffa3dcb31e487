-- ===== src/Postgres/Contract/Methods.antt =====
-- The methods of internal/postgres/store.go that move an order on, as effects on the view.
use fulfillhub_go_commerce_p.Prelude.{String, refl, [], ◌∷◌}
use fulfillhub_go_commerce_p.Commerce.Status.{OrderStatus}
use fulfillhub_go_commerce_p.Commerce.Model.{Time, Payment, Shipment}
use fulfillhub_go_commerce_p.Commerce.Event.{
  EventType, OutboxEvent, AuditLog, order_status_event_payload,
}
use fulfillhub_go_commerce_p.Commerce.Contract.{Effect, moved, moves, reports, nothing}
use fulfillhub_go_commerce_p.Postgres.Tables.{OrderRow}
use fulfillhub_go_commerce_p.Postgres.{Engine}
use fulfillhub_go_commerce_p.Postgres.Writes.{
  paid_provider, set_payment, set_shipment, set_notification, set_compensation,
}
use fulfillhub_go_commerce_p.Postgres.Orders.{advance_counted, update_order_status}
use fulfillhub_go_commerce_p.Postgres.Projection.{
  advance_order, touch_order, authorize, record_inventory_reserved, record_inventory_rejected,
  record_payment_authorized, record_payment_failed, record_shipment_created, record_shipment_failed,
  record_order_cancelled, record_notification_queued, record_compensation,
  apply_compensation_effects,
}
use fulfillhub_go_commerce_p.Postgres.Contract.{StockTest, Step, sequence, return-Step}
use fulfillhub_go_commerce_p.Postgres.Contract.Statements.{
  waiting, exec-Step, exec_checked-Step, query-Step, found-Step, in_transaction-Step,
  insert_outbox_event-Step, insert_audit_log-Step, publish-Step, lock_for-Step, set_order-Step,
  set_moved-Step, counted-Step, get_order_row-Step,
}
use fulfillhub_go_commerce_p.Postgres.Contract.Stock.{
  elsewhere, update_items-SameView, update_items-KeepsStock, IsStable, release_reserved_stock-Step,
  void_authorized_payment-Step, reserve_items-Step, order_items_for_reservation-Step,
}

abbrev advanced : String → OrderStatus → Effect
advanced id status = record nothing { target = moved id status }

module _ {Q : StockTest} (engine : Engine) (stable : IsStable engine Q) where
  pub advance_order-Step :
      (label id : String) (status : OrderStatus) (at : Time)
      → Step Q (waiting id status) (advance_order engine label id status at) (advanced id status)
  unfolding advance_order
  advance_order-Step label id status at =
      set_moved-Step engine label id status _ (λ r. refl) (λ r. refl)

  pub advance_counted-Step :
      (label id : String) (status : OrderStatus) (at : Time)
      → Step Q (waiting id status) (advance_counted engine label id status at) (advanced id status)
  unfolding advance_counted
  advance_counted-Step label id status at =
      let change : OrderRow → OrderRow = λ row. record row { status = status; updated_at = at } in
      counted-Step engine _ _ label id change
        (set_moved-Step engine label id status change (λ r. refl) (λ r. refl))

  pub touch_order-Step :
      (e : Effect) (label id : String) (at : Time) → Step Q e (touch_order engine label id at) e
  unfolding touch_order
  touch_order-Step e label id at = set_order-Step engine e label id _ (λ r. refl) (λ r. refl)

  pub update_order_status-Step :
      (id : String) (status : OrderStatus) (now : Time) (event : OutboxEvent) (audit : AuditLog)
      → Step Q nothing
          (update_order_status engine id status now event audit)
          (moves id status event audit)
  unfolding update_order_status
  update_order_status-Step id status now event audit =
      let changed : OutboxEvent = record event {
        payload = order_status_event_payload status now audit event.payload;
      } in
      in_transaction-Step engine _ _ _ _ _ (
        sequence nothing (waiting id status) _ _ _ (lock_for-Step engine id status) (λ u.
          sequence _ (advanced id status) _ _ _ (advance_counted-Step _ id status now) (λ v.
            sequence _ _ _ _ _ (insert_outbox_event-Step engine (advanced id status) changed) (λ w.
              sequence _ _ _ _ _ (insert_audit_log-Step engine _ audit)
                (λ x. get_order_row-Step engine _ id)))))

  pub record_inventory_reserved-Step :
      (source next : OutboxEvent) (audit : AuditLog)
      → Step Q nothing
          (record_inventory_reserved engine source next audit)
          (moves source.order_id OrderStatus.inventory_reserved next audit)
  unfolding record_inventory_reserved
  record_inventory_reserved-Step source next audit =
      let id = source.order_id in
      let status = OrderStatus.inventory_reserved in
      in_transaction-Step engine _ _ _ _ _ (
        sequence nothing (waiting id status) _ _ _ (lock_for-Step engine id status) (λ u.
          sequence _ (waiting id status) _ _ _ (order_items_for_reservation-Step engine _ id)
            (λ items.
              sequence _ (waiting id status) _ _ _
                (reserve_items-Step engine stable _ source.merchant_id id next.occurred_at items)
                (λ reserved.
                  sequence _ (waiting id status) _ _ _
                    (exec-Step engine _ _ _ (update_items-SameView id _)
                      (update_items-KeepsStock Q id _))
                    (λ v.
                      sequence _ (advanced id status) _ _ _
                        (advance_order-Step _ id status next.occurred_at)
                        (λ w. publish-Step engine _ _ audit))))))

  pub record_order_cancelled-Step :
      (source next : OutboxEvent) (audit : AuditLog)
      → Step Q nothing
          (record_order_cancelled engine source next audit)
          (moves source.order_id OrderStatus.cancelled next audit)
  unfolding record_order_cancelled
  record_order_cancelled-Step source next audit =
      let id = source.order_id in
      let status = OrderStatus.cancelled in
      in_transaction-Step engine _ _ _ _ _ (
        sequence nothing (waiting id status) _ _ _ (lock_for-Step engine id status) (λ u.
          sequence _ (advanced id status) _ _ _ (advance_counted-Step _ id status next.occurred_at)
            (λ v.
              sequence _ (advanced id status) _ _ _
                (release_reserved_stock-Step engine stable _ id next.occurred_at)
                (λ w.
                  sequence _ (advanced id status) _ _ _
                    (void_authorized_payment-Step engine _ id next.occurred_at)
                    (λ x. publish-Step engine _ _ audit)))))

  pub record_inventory_rejected-Step :
      (source next : OutboxEvent) (audit : AuditLog)
      → Step Q nothing (record_inventory_rejected engine source next audit) (reports next audit)
  unfolding record_inventory_rejected
  record_inventory_rejected-Step source next audit =
      let id = source.order_id in
      in_transaction-Step engine _ _ _ _ _ (
        sequence nothing nothing _ _ _ (get_order_row-Step engine nothing id) (λ order.
          sequence _ nothing _ _ _
            (exec-Step engine _ _ _ (update_items-SameView id _) (update_items-KeepsStock Q id _))
            (λ u.
              sequence _ nothing _ _ _ (touch_order-Step _ _ id next.occurred_at)
                (λ v. publish-Step engine _ _ audit))))

  pub record_shipment_failed-Step :
      (source next : OutboxEvent) (audit : AuditLog)
      → Step Q nothing (record_shipment_failed engine source next audit) (reports next audit)
  unfolding record_shipment_failed
  record_shipment_failed-Step source next audit =
      let id = source.order_id in
      in_transaction-Step engine _ _ _ _ _ (
        sequence nothing nothing _ _ _ (get_order_row-Step engine nothing id) (λ order.
          sequence _ nothing _ _ _ (touch_order-Step _ _ id next.occurred_at)
            (λ v. publish-Step engine _ _ audit)))

  pub record_payment_failed-Step :
      (source next : OutboxEvent) (audit : AuditLog)
      → Step Q nothing (record_payment_failed engine source next audit) (reports next audit)
  unfolding record_payment_failed
  record_payment_failed-Step source next audit =
      let id = source.order_id in
      in_transaction-Step engine _ _ _ _ _ (
        sequence nothing nothing _ _ _ (query-Step engine nothing _ _) (λ row.
          sequence _ nothing _ _ _ (found-Step engine nothing row) (λ r.
            sequence _ nothing _ _ _ (set_order-Step engine _ _ id _ (λ q. refl) (λ q. refl))
              (λ v. publish-Step engine _ _ audit))))

  pub authorize-Step :
      (source next : OutboxEvent) (payment : Payment) (audit : AuditLog) (row : OrderRow)
      → Step Q
          (waiting source.order_id OrderStatus.payment_authorized)
          (authorize engine source next payment audit row)
          (moves source.order_id OrderStatus.payment_authorized next audit)
  unfolding authorize set_payment
  authorize-Step source next payment audit row =
      let id = source.order_id in
      let status = OrderStatus.payment_authorized in
      sequence _ (waiting id status) _ _ _
        (exec_checked-Step engine _ _ _ _
          (set_payment source payment (paid_provider payment.provider row) row next.occurred_at)
          (elsewhere _ (λ d. refl) (λ d. refl) (λ d. refl)) (λ db q. q))
        (λ u.
          sequence _ (advanced id status) _ _ _
            (set_moved-Step engine _ id status _ (λ r. refl) (λ r. refl))
            (λ v. publish-Step engine _ _ audit))

  pub record_payment_authorized-Step :
      (source next : OutboxEvent) (payment : Payment) (audit : AuditLog)
      → Step Q nothing
          (record_payment_authorized engine source next payment audit)
          (moves source.order_id OrderStatus.payment_authorized next audit)
  unfolding record_payment_authorized
  record_payment_authorized-Step source next payment audit =
      let id = source.order_id in
      let status = OrderStatus.payment_authorized in
      in_transaction-Step engine _ _ _ _ _ (
        sequence nothing (waiting id status) _ _ _ (lock_for-Step engine id status) (λ u.
          sequence _ (waiting id status) _ _ _ (query-Step engine _ _ _) (λ row.
            sequence _ (waiting id status) _ _ _ (found-Step engine _ row)
              (λ r. authorize-Step source next payment audit r))))

  pub record_shipment_created-Step :
      (source next : OutboxEvent) (shipment : Shipment) (audit : AuditLog)
      → Step Q nothing
          (record_shipment_created engine source next shipment audit)
          (moves source.order_id OrderStatus.shipment_created next audit)
  unfolding record_shipment_created set_shipment
  record_shipment_created-Step source next shipment audit =
      let id = source.order_id in
      let status = OrderStatus.shipment_created in
      in_transaction-Step engine _ _ _ _ _ (
        sequence nothing (waiting id status) _ _ _ (lock_for-Step engine id status) (λ u.
          sequence _ (waiting id status) _ _ _ (get_order_row-Step engine _ id) (λ order.
            sequence _ (waiting id status) _ _ _
              (exec_checked-Step engine _ _ _ _ (set_shipment source shipment next.occurred_at)
                (elsewhere _ (λ d. refl) (λ d. refl) (λ d. refl)) (λ db q. q))
              (λ v.
                sequence _ (advanced id status) _ _ _
                  (advance_order-Step _ id status next.occurred_at)
                  (λ w. publish-Step engine _ _ audit)))))

  pub record_notification_queued-Step :
      (source : OutboxEvent) (audit : AuditLog)
      → Step Q nothing
          (record_notification_queued engine source audit)
          (record nothing { audits = audit ∷ [] })
  unfolding record_notification_queued set_notification
  record_notification_queued-Step source audit = in_transaction-Step engine _ _ _ _ _ (
      sequence nothing nothing _ _ _ (get_order_row-Step engine nothing source.order_id) (λ order.
        sequence _ nothing _ _ _
          (exec-Step engine _ _ (set_notification source audit)
            (elsewhere _ (λ d. refl) (λ d. refl) (λ d. refl)) (λ db q. q))
          (λ u. insert_audit_log-Step engine _ audit)))

  pub apply_compensation_effects-Step :
      (e : Effect) (type : EventType) (id : String) (at : Time)
      → Step Q e (apply_compensation_effects engine type id at) e
  unfolding apply_compensation_effects
  apply_compensation_effects-Step e EventType.payment_failed id at =
      release_reserved_stock-Step engine stable e id at
  apply_compensation_effects-Step e EventType.shipment_failed id at =
      sequence e e e _ _ (release_reserved_stock-Step engine stable e id at)
        (λ u. void_authorized_payment-Step engine e id at)
  apply_compensation_effects-Step e EventType.order_created id at = return-Step e tt
  apply_compensation_effects-Step e EventType.order_cancel_requested id at = return-Step e tt
  apply_compensation_effects-Step e EventType.inventory_reserved id at = return-Step e tt
  apply_compensation_effects-Step e EventType.inventory_rejected id at = return-Step e tt
  apply_compensation_effects-Step e EventType.payment_authorized id at = return-Step e tt
  apply_compensation_effects-Step e EventType.shipment_created id at = return-Step e tt
  apply_compensation_effects-Step e EventType.order_completed id at = return-Step e tt
  apply_compensation_effects-Step e EventType.order_cancelled id at = return-Step e tt
  apply_compensation_effects-Step e EventType.order_manual_review_required id at = return-Step e tt
  apply_compensation_effects-Step e (EventType.other s) id at = return-Step e tt

  pub record_compensation-Step :
      (source : OutboxEvent) (status : OrderStatus) (audit : AuditLog)
      → Step Q nothing
          (record_compensation engine source status audit)
          (record (advanced source.order_id status) { audits = audit ∷ [] })
  unfolding record_compensation set_compensation
  record_compensation-Step source status audit =
      let id = source.order_id in
      in_transaction-Step engine _ _ _ _ _ (
        sequence nothing (waiting id status) _ _ _ (lock_for-Step engine id status) (λ u.
          sequence _ (advanced id status) _ _ _ (advance_counted-Step _ id status audit.created_at)
            (λ v.
              sequence _ (advanced id status) _ _ _
                (apply_compensation_effects-Step _ source.event_type id audit.created_at)
                (λ w.
                  sequence _ (advanced id status) _ _ _
                    (exec-Step engine _ _ (set_compensation source status audit)
                      (elsewhere _ (λ d. refl) (λ d. refl) (λ d. refl)) (λ db q. q))
                    (λ x. insert_audit_log-Step engine _ audit)))))
