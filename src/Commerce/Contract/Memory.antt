-- ===== src/Commerce/Contract/Memory.antt =====
-- The memory store keeps the contract.
use mathlib.Core.List.{append-nil}
use fulfillhub_go_commerce_p.Prelude.{
  String, ◌≡◌, refl, sym, [], ◌∷◌, some, Option-cases, Bool-cases, inl, inr,
}
use fulfillhub_go_commerce_p.Dict
use fulfillhub_go_commerce_p.Dict.{get-put, get-put_cases}
use fulfillhub_go_commerce_p.Commerce.Keys.{scoped_key}
use fulfillhub_go_commerce_p.Commerce.Status.{OrderStatus, validate_order_transition}
use fulfillhub_go_commerce_p.Commerce.Model.{Time, Order}
use fulfillhub_go_commerce_p.Commerce.Event.{OutboxEvent, AuditLog, order_status_event_payload}
use fulfillhub_go_commerce_p.Commerce.Event.Message.{message}
use fulfillhub_go_commerce_p.Commerce.Result.{ok, ◌>>◌, modify}
use fulfillhub_go_commerce_p.Commerce.Store.{
  MemoryStore, find_order, check_transition, save_order, emit, append_audit, append_outbox_event,
  update_order_status, insert_order,
}
use fulfillhub_go_commerce_p.Commerce.Store.Projection.{
  record_inventory_reserved, record_inventory_rejected, record_payment_authorized,
  record_payment_failed, record_shipment_created, record_shipment_failed, record_order_cancelled,
  record_notification_queued, record_compensation, compensated,
}
use fulfillhub_go_commerce_p.Commerce.Store.Outbox.{pending_outbox_events, mark_outbox_published}
use fulfillhub_go_commerce_p.Commerce.Store.History.{
  Call, inserts, updates, inventory_reserves, inventory_rejects, payment_authorizes, payment_fails,
  shipment_creates, shipment_fails, order_cancels, notification_queues, compensates, claims,
  publishes, apply,
}
use fulfillhub_go_commerce_p.Commerce.Contract.{Effect, moved, moves, nothing, effect, IsPromised}
use fulfillhub_go_commerce_p.Commerce.Contract.Moves.{
  memory_view, map-snoc, put_moved, Delivers, finished, moved_view, moved_Delivers,
  reported_Delivers, unchanged_Delivers,
}

record_notification_queued-Delivers :
    (source : OutboxEvent) (audit : AuditLog) (s : MemoryStore)
    → Delivers
        (record nothing { audits = audit ∷ [] })
        s
        (record_notification_queued source audit s)
unfolding record_notification_queued find_order append_audit memory_view
record_notification_queued-Delivers source audit s =
    elim (Option-cases (Dict.get s.orders source.order_id)) [
      | inl missing ↦ rw (missing, find_order) (λ t h. cc h)
      | inr (o, found) ↦
          rw (found, find_order)
            (finished _ s _
              (record { target = λ j. refl; outbox = sym (append-nil _); audits = refl }))
    ]

module _ (source : OutboxEvent) (status : OrderStatus) (audit : AuditLog) (s : MemoryStore) where
  abbrev compensation : Effect
  compensation = record {
    target = moved source.order_id status;
    messages = [];
    audits = audit ∷ [];
  }

  compensated_step :
      (o : Order)
      → Dict.get s.orders source.order_id ≡ some o
      → Delivers compensation s (
          (check_transition o.status status
              >> (save_order source.order_id
                    (compensated source.event_type status audit.created_at o)
                  >> modify (append_audit audit)))
            s)
  unfolding check_transition save_order append_audit memory_view compensated
  compensated_step o found = elim (Option-cases (validate_order_transition o.status status)) [
    | inl legal ↦
        rw (legal, check_transition)
          (finished _ s _ (record {
            target = ((o.status, rw found refl, legal), put_moved s source.order_id _);
            outbox = sym (append-nil _);
            audits = refl;
          }))
    | inr (issue, illegal) ↦ rw (illegal, check_transition) (λ t h. cc h)
  ]

  record_compensation-Delivers : Delivers compensation s (record_compensation source status audit s)
  unfolding record_compensation find_order
  record_compensation-Delivers = elim (Option-cases (Dict.get s.orders source.order_id)) [
    | inl missing ↦ rw (missing, find_order) (λ t h. cc h)
    | inr (o, found) ↦ rw (found, find_order) (compensated_step o found)
  ]

update_order_status-Delivers :
    (id : String) (status : OrderStatus) (now : Time) (event : OutboxEvent) (audit : AuditLog)
    (s : MemoryStore)
    → Delivers (moves id status event audit) s (apply (updates id status now event audit) s)
unfolding apply update_order_status find_order check_transition save_order emit append_audit
    append_outbox_event
update_order_status-Delivers id status now event audit s =
    elim (Option-cases (Dict.get s.orders id)) [
      | inl missing ↦ rw (missing, find_order) (λ t h. cc h)
      | inr (o, found) ↦ elim (Option-cases (validate_order_transition o.status status)) [
        | inl legal ↦
            rw (found, find_order, legal, check_transition)
              (finished _ s _ (
                moved_view id status (λ o. record o { status = status; updated_at = now })
                  (λ o. record event {
                    payload = order_status_event_payload status now audit event.payload;
                  })
                  audit (message event) s (λ o. refl) (λ o. refl) o found legal))
        | inr (issue, illegal) ↦ rw (found, find_order, illegal, check_transition) (λ t h. cc h)
      ]
    ]

insert_order-Delivers :
    (merchant_id key : String) (order : Order) (event : OutboxEvent) (audit : AuditLog)
    (s t : MemoryStore)
    → apply (inserts merchant_id key order event audit) s ≡ (ok tt, t)
    → IsPromised (inserts merchant_id key order event audit) (memory_view s) (memory_view t)
unfolding apply insert_order append_audit append_outbox_event effect memory_view
insert_order-Delivers merchant_id key order event audit s t =
    elim (Option-cases (Dict.get s.orders_by_idempotency (scoped_key merchant_id key))) [
      | inr (id, known) ↦
          rw (known, insert_order) (λ h. inl (unchanged_Delivers s s refl refl refl t h))
      | inl fresh ↦
          elim (Bool-cases
            (Dict.has s.orders_by_external (scoped_key merchant_id order.external_order_id))) [
              | inl taken ↦ rw (fresh, insert_order, taken) (λ h. cc h)
              | inr free ↦
                  rw (fresh, insert_order, free)
                    (λ h. inr (
                      finished _ s _
                        (record {
                          target = put_moved s order.order_id order;
                          outbox = map-snoc s.outbox event;
                          audits = refl;
                        })
                        t h))
            ]
    ]

-- Where a method of the memory store succeeds, the store shows what the contract promises of the call:
-- the status each order gets, the messages and the audit records appended, and no more.
pub memory_store-IsPromised :
    (c : Call) (s t : MemoryStore)
    → apply c s ≡ (ok tt, t)
    → IsPromised c (memory_view s) (memory_view t)
unfolding effect apply record_inventory_reserved record_inventory_rejected record_payment_authorized
    record_payment_failed record_shipment_created record_shipment_failed record_order_cancelled
    pending_outbox_events mark_outbox_published
memory_store-IsPromised (inserts merchant_id key order event audit) s t h =
    insert_order-Delivers merchant_id key order event audit s t h
memory_store-IsPromised (updates id status now event audit) s t h =
    update_order_status-Delivers id status now event audit s t h
memory_store-IsPromised (inventory_reserves source next audit) s t h =
    moved_Delivers _ _ _ _ _ _ s (λ o. refl) (λ o. refl) t h
memory_store-IsPromised (inventory_rejects source next audit) s t h =
    reported_Delivers _ _ _ _ _ s (λ o. refl) (λ o. refl) t h
memory_store-IsPromised (payment_authorizes source next payment audit) s t h =
    moved_Delivers _ _ _ _ _ _ s (λ o. refl) (λ o. refl) t h
memory_store-IsPromised (payment_fails source next audit) s t h =
    reported_Delivers _ _ _ _ _ s (λ o. refl) (λ o. refl) t h
memory_store-IsPromised (shipment_creates source next shipment audit) s t h =
    moved_Delivers _ _ _ _ _ _ s (λ o. refl) (λ o. refl) t h
memory_store-IsPromised (shipment_fails source next audit) s t h =
    reported_Delivers _ _ _ _ _ s (λ o. refl) (λ o. refl) t h
memory_store-IsPromised (order_cancels source next audit) s t h =
    moved_Delivers _ _ _ _ _ _ s (λ o. refl) (λ o. refl) t h
memory_store-IsPromised (notification_queues source audit) s t h =
    record_notification_queued-Delivers source audit s t h
memory_store-IsPromised (compensates source status audit) s t h =
    record_compensation-Delivers source status audit s t h
memory_store-IsPromised (claims now limit) s t h =
    unchanged_Delivers s (pending_outbox_events now limit s).1 refl refl refl t h
memory_store-IsPromised (publishes message_id at) s t h =
    unchanged_Delivers s (mark_outbox_published message_id at s) refl refl refl t h
