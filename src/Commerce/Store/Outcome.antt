-- ===== src/Commerce/Store/Outcome.antt =====
-- Each method of the memory store, as a move or a refusal.
use fulfillhub_go_commerce_p.Prelude.{
  String, ◌≡◌, refl, true, false, List, [], map, none, some, arith, Option-cases, inl, inr,
}
use fulfillhub_go_commerce_p.Dict
use fulfillhub_go_commerce_p.Commerce.Keys.{scoped_key}
use fulfillhub_go_commerce_p.Commerce.Status.{OrderStatus, validate_order_transition}
use mathlib.Core.List.{append-nil}
use fulfillhub_go_commerce_p.Commerce.Model.{Time, Order, OrderItem, Payment, Shipment}
use fulfillhub_go_commerce_p.Commerce.Event.{OutboxEvent, AuditLog}
use fulfillhub_go_commerce_p.Commerce.Result.{not_found, duplicate_order, invalid_state_transition}
use fulfillhub_go_commerce_p.Commerce.Store.{
  MemoryStore, find_order, check_transition, append_audit, append_outbox_event, insert_order,
  update_order_status,
}
use fulfillhub_go_commerce_p.Commerce.Store.Projection.{
  record_inventory_reserved, record_inventory_rejected, record_payment_authorized,
  record_payment_failed, record_shipment_created, record_shipment_failed, record_order_cancelled,
  record_notification_queued, record_compensation, compensated_items, compensated,
}
use fulfillhub_go_commerce_p.Commerce.Store.Move.{
  IsNew, Outcome, refused, done, stay, insert, advance, note, SameTerms, moved, lines-mark,
  lines-release, checked_Outcome, unchecked_Outcome, line,
}

abbrev same_terms :
    (o p : Order)
    → p.order_id ≡ o.order_id
    → p.merchant_id ≡ o.merchant_id
    → p.external_order_id ≡ o.external_order_id
    → p.currency ≡ o.currency
    → p.totals ≡ o.totals
    → p.shipping_address_ref ≡ o.shipping_address_ref
    → p.created_at ≡ o.created_at
    → map line p.items ≡ map line o.items
    → SameTerms o p
same_terms o p a b c d e f g h = record {
  order_id = a;
  merchant_id = b;
  external_order_id = c;
  currency = d;
  totals = e;
  lines = h;
  address = f;
  created_at = g;
}

pub record_inventory_reserved-Outcome :
    {D : Type 0} (source next : OutboxEvent) (audit : AuditLog) (s : MemoryStore)
    → Outcome D s (record_inventory_reserved source next audit s)
unfolding record_inventory_reserved
record_inventory_reserved-Outcome source next audit s =
    checked_Outcome _ source.order_id OrderStatus.inventory_reserved _ _ audit s
      (λ o. same_terms o _ refl refl refl refl refl refl refl (lines-mark _ o.items)) (λ o. refl)

pub record_inventory_rejected-Outcome :
    {D : Type 0} (source next : OutboxEvent) (audit : AuditLog) (s : MemoryStore)
    → Outcome D s (record_inventory_rejected source next audit s)
unfolding record_inventory_rejected
record_inventory_rejected-Outcome source next audit s =
    unchecked_Outcome _ source.order_id _ _ audit s
      (λ o. same_terms o _ refl refl refl refl refl refl refl (lines-mark _ o.items)) (λ o. refl)

pub record_payment_authorized-Outcome :
    {D : Type 0} (source next : OutboxEvent) (payment : Payment) (audit : AuditLog)
    (s : MemoryStore)
    → Outcome D s (record_payment_authorized source next payment audit s)
unfolding record_payment_authorized
record_payment_authorized-Outcome source next payment audit s =
    checked_Outcome _ source.order_id OrderStatus.payment_authorized _ _ audit s
      (λ o. same_terms o _ refl refl refl refl refl refl refl refl) (λ o. refl)

pub record_payment_failed-Outcome :
    {D : Type 0} (source next : OutboxEvent) (audit : AuditLog) (s : MemoryStore)
    → Outcome D s (record_payment_failed source next audit s)
unfolding record_payment_failed
record_payment_failed-Outcome source next audit s =
    unchecked_Outcome _ source.order_id _ _ audit s
      (λ o. same_terms o _ refl refl refl refl refl refl refl refl) (λ o. refl)

pub record_shipment_created-Outcome :
    {D : Type 0} (source next : OutboxEvent) (shipment : Shipment) (audit : AuditLog)
    (s : MemoryStore)
    → Outcome D s (record_shipment_created source next shipment audit s)
unfolding record_shipment_created
record_shipment_created-Outcome source next shipment audit s =
    checked_Outcome _ source.order_id OrderStatus.shipment_created _ _ audit s
      (λ o. same_terms o _ refl refl refl refl refl refl refl refl) (λ o. refl)

pub record_shipment_failed-Outcome :
    {D : Type 0} (source next : OutboxEvent) (audit : AuditLog) (s : MemoryStore)
    → Outcome D s (record_shipment_failed source next audit s)
unfolding record_shipment_failed
record_shipment_failed-Outcome source next audit s =
    unchecked_Outcome _ source.order_id _ _ audit s
      (λ o. same_terms o _ refl refl refl refl refl refl refl refl) (λ o. refl)

pub record_order_cancelled-Outcome :
    {D : Type 0} (source next : OutboxEvent) (audit : AuditLog) (s : MemoryStore)
    → Outcome D s (record_order_cancelled source next audit s)
unfolding record_order_cancelled
record_order_cancelled-Outcome source next audit s =
    checked_Outcome _ source.order_id OrderStatus.cancelled _ _ audit s
      (λ o. same_terms o _ refl refl refl refl refl refl refl (lines-release o.items)) (λ o. refl)

pub record_notification_queued-Outcome :
    {D : Type 0} (source : OutboxEvent) (audit : AuditLog) (s : MemoryStore)
    → Outcome D s (record_notification_queued source audit s)
unfolding record_notification_queued
record_notification_queued-Outcome source audit s =
    elim (Option-cases (Dict.get s.orders source.order_id)) [
      | inl missing ↦ rw (missing, find_order) (refused not_found refl)
      | inr (o, found) ↦ rw (found, find_order) (done tt refl (note audit refl))
    ]

compensated-lines :
    (source : OutboxEvent) (items : List OrderItem)
    → map line (compensated_items source.event_type items) ≡ map line items
unfolding compensated_items
compensated-lines source items = ground (arith, lines-release items)

compensate-Outcome :
    {D : Type 0} (source : OutboxEvent) (status : OrderStatus) (audit : AuditLog) (s : MemoryStore)
    (o : Order)
    → Dict.get s.orders source.order_id ≡ some o
    → Outcome D s (record_compensation source status audit s)
unfolding record_compensation
compensate-Outcome source status audit s o found =
    elim (Option-cases (validate_order_transition o.status status)) [
      | inl legal ↦
          rw (found, find_order)
            (rw (legal, check_transition)
              (done tt refl (
                advance source.order_id o (compensated source.event_type status audit.created_at o)
                  [] audit found
                  (same_terms o _ refl refl refl refl refl refl refl
                    (compensated-lines source o.items))
                  (moved legal) (rw append-nil))))
      | inr (issue, illegal) ↦
          rw (found, find_order)
            (rw (illegal, check_transition) (refused (invalid_state_transition (some issue)) refl))
    ]

pub record_compensation-Outcome :
    {D : Type 0} (source : OutboxEvent) (status : OrderStatus) (audit : AuditLog) (s : MemoryStore)
    → Outcome D s (record_compensation source status audit s)
unfolding record_compensation
record_compensation-Outcome source status audit s =
    elim (Option-cases (Dict.get s.orders source.order_id)) [
      | inl missing ↦ rw (missing, find_order) (refused not_found refl)
      | inr (o, found) ↦ compensate-Outcome source status audit s o found
    ]

update-Outcome :
    {D : Type 0} (id : String) (status : OrderStatus) (now : Time) (event : OutboxEvent)
    (audit : AuditLog) (s : MemoryStore) (o : Order)
    → Dict.get s.orders id ≡ some o
    → Outcome D s (update_order_status id status now event audit s)
unfolding update_order_status
update-Outcome id status now event audit s o found =
    elim (Option-cases (validate_order_transition o.status status)) [
      | inl legal ↦
          rw (found, find_order)
            (rw (legal, check_transition)
              (done (record o { status = status; updated_at = now }) refl
                (advance id o (record o { status = status; updated_at = now }) _ audit found
                  (same_terms o _ refl refl refl refl refl refl refl refl) (moved legal) refl)))
      | inr (issue, illegal) ↦
          rw (found, find_order)
            (rw (illegal, check_transition) (refused (invalid_state_transition (some issue)) refl))
    ]

pub update_order_status-Outcome :
    {D : Type 0} (id : String) (status : OrderStatus) (now : Time) (event : OutboxEvent)
    (audit : AuditLog) (s : MemoryStore)
    → Outcome D s (update_order_status id status now event audit s)
unfolding update_order_status
update_order_status-Outcome id status now event audit s =
    elim (Option-cases (Dict.get s.orders id)) [
      | inl missing ↦ rw (missing, find_order) (refused not_found refl)
      | inr (o, found) ↦ update-Outcome id status now event audit s o found
    ]

insert_fresh-Outcome :
    {D : Type 0} (merchant_id key : String) (order : Order) (event : OutboxEvent) (audit : AuditLog)
    (s : MemoryStore)
    → (D → IsNew s merchant_id order)
    → Dict.get s.orders_by_idempotency (scoped_key merchant_id key) ≡ none
    → Outcome D s (insert_order merchant_id key order event audit s)
unfolding insert_order append_audit append_outbox_event
insert_fresh-Outcome merchant_id key order event audit s drawn new =
    elim (Option-cases
      (Dict.get s.orders_by_external (scoped_key merchant_id order.external_order_id))) [
        | inl free ↦
            rw (new, free, insert_order)
              (done (some order, false) refl
                (insert merchant_id key order event audit drawn new free refl))
        | inr (id, taken) ↦ rw (new, taken, insert_order) (refused duplicate_order refl)
      ]

pub insert_order-Outcome :
    {D : Type 0} (merchant_id key : String) (order : Order) (event : OutboxEvent) (audit : AuditLog)
    (s : MemoryStore)
    → (D → IsNew s merchant_id order)
    → Outcome D s (insert_order merchant_id key order event audit s)
unfolding insert_order
insert_order-Outcome merchant_id key order event audit s drawn =
    elim (Option-cases (Dict.get s.orders_by_idempotency (scoped_key merchant_id key))) [
      | inl new ↦ insert_fresh-Outcome merchant_id key order event audit s drawn new
      | inr (id, old) ↦ rw (old, insert_order) (done (Dict.get s.orders id, true) refl (stay refl))
    ]
