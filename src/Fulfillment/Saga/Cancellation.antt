-- ===== src/Fulfillment/Saga/Cancellation.antt =====
-- The cancellation worker on a requested cancellation.
use fulfillhub_go_commerce_p.Prelude.{
  ◌≡◌, ◌≢◌, ◌↔◌, refl, true, false, none, some, inl, inr, Bool-cases, Option-cases, arith, eq_iff,
  str_eq, Bool, not, ◌&&◌, subst, sym,
}
use mathlib.Core.Option.{some-injective}
use fulfillhub_go_commerce_p.Dict
use fulfillhub_go_commerce_p.Commerce.Status.{OrderStatus, validate_order_transition}
use fulfillhub_go_commerce_p.Commerce.Model.{Order, Shipment}
use fulfillhub_go_commerce_p.Commerce.Event.{EventType, OutboxEvent, event_type_eq}
use fulfillhub_go_commerce_p.Commerce.Result.{ok}
use fulfillhub_go_commerce_p.Commerce.Store.{
  MemoryStore, find_order, check_transition, save_order, emit, append_audit, append_outbox_event,
  get_order, update_order_status,
}
use fulfillhub_go_commerce_p.Commerce.Store.Projection.{record_order_cancelled}
use fulfillhub_go_commerce_p.Fulfillment.Ports.{memory_projector, memory_orders}
use fulfillhub_go_commerce_p.Fulfillment.Rules.{
  validate_event, requires_manual_review, has_reserved_inventory, has_authorized_payment,
}
use fulfillhub_go_commerce_p.Fulfillment.Handlers.{cancel_order}
use fulfillhub_go_commerce_p.Fulfillment.Saga.{Draws, Draw, Providers, worker, Leaves, advanced}
use fulfillhub_go_commerce_p.Fulfillment.Saga.Compensation.{none_reserved, none_authorized}

-- The order has a shipment in the carrier's hands.
pub HandedOver : Order → Type 0
HandedOver o =
    (shipment : Shipment) × (o.shipment ≡ some shipment)
    × (shipment.status ≢ "")
    × (shipment.status ≢ "failed")

abbrev in_hand : Shipment → Bool
in_hand x = not (str_eq x.status "") && not (str_eq x.status "failed")

in_hand_status : (x : Shipment) → x.status ≢ "" → x.status ≢ "failed" → in_hand x ≡ true
in_hand_status x named sound =
    ground (arith, named, sound, eq_iff x.status "", eq_iff x.status "failed")

pending_review :
    (o : Order)
    → o.status ≡ OrderStatus.cancellation_pending
    → (requires_manual_review o ≡ true) ↔ HandedOver o
unfolding requires_manual_review HandedOver
pending_review o pending = elim (Option-cases o.shipment) [
  | inl missing ↦ rw (pending, missing) (λ h. cc h, λ h. cc (h.1))
  | inr (shipment, booked) ↦
      rw (pending, booked)
        (
          λ h. (
            shipment,
            refl,
            ground (arith, h, eq_iff shipment.status ""),
            ground (arith, h, eq_iff shipment.status "failed"),
          ),
          λ (x, e, named, sound).
              subst (λ y. in_hand y ≡ true) (sym (some-injective shipment x e))
                (in_hand_status x named sound),
        )
]

-- The two ends of a cancellation.
pub data Resolved (s t : MemoryStore) (event : OutboxEvent) (o : Order) : Type 0 where
  under_review :
      HandedOver o
      → Leaves s t event OrderStatus.manual_review EventType.order_manual_review_required
      → Resolved s t event o
  cancelled :
      ¬ HandedOver o
      → (l : Leaves s t event OrderStatus.cancelled EventType.order_cancelled)
      → has_reserved_inventory l.order ≡ false
      → has_authorized_payment l.order ≡ false
      → Resolved s t event o

module _ (d : Draws) (drawn : Draw d) (p : Providers) (event : OutboxEvent) (s : MemoryStore)
    (o : Order) (found : Dict.get s.orders event.order_id ≡ some o) where
  -- With identifiers drawn that are not empty, on a well-formed request about a stored order at
  -- `cancellation_pending` the cancellation worker
  -- succeeds: an order with a shipment whose status is neither empty nor `failed` goes to manual review;
  -- any other is
  -- cancelled, and then no item is reserved and no payment authorized. In both cases one event about
  -- the order tells so.
  pub cancellation_resolves :
      validate_event event EventType.order_cancel_requested ≡ none
      → o.status ≡ OrderStatus.cancellation_pending
      → (t : MemoryStore) × (cancel_order (worker d p) event s ≡ (ok tt, t)) × Resolved s t event o
  unfolding cancel_order memory_orders memory_projector get_order update_order_status
      record_order_cancelled find_order check_transition save_order emit append_audit
      append_outbox_event validate_order_transition event_type_eq has_reserved_inventory advanced
      HandedOver
  cancellation_resolves valid pending = elim (Bool-cases (requires_manual_review o)) [
    | inl r ↦ rw valid (
        rw found (
          rw pending (
            let r' : requires_manual_review (record o { status = OrderStatus.cancellation_pending })
                ≡ true =
              (rw pending at r) in
            rw r' (
              rw found (
                rw pending (
                  _,
                  refl,
                  under_review ((pending_review o pending).0 r) (
                      advanced d p 0 event _ EventType.order_manual_review_required _ drawn valid s
                        _ _ refl refl refl),
                ))))))
    | inr u ↦ rw valid (
        rw found (
          rw pending (
            let u' : requires_manual_review (record o { status = OrderStatus.cancellation_pending })
                ≡ false =
              (rw pending at u) in
            rw u' (
              rw found (
                rw pending (
                  _,
                  refl,
                  cancelled (λ h. cc ((pending_review o pending).1 h, u))
                      (advanced d p 0 event _ EventType.order_cancelled _ drawn valid s _ _ refl
                        refl refl)
                      (none_reserved o.items) (none_authorized o.payment _ refl),
                ))))))
  ]
