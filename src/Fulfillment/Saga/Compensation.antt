-- ===== src/Fulfillment/Saga/Compensation.antt =====
-- A provider's refusal and the compensation worker after it.
use fulfillhub_go_commerce_p.Prelude.{
  String, ◌≡◌, refl, ◌∙◌, false, List, [], ◌∷◌, Option, none, some, str_eq, arith, map, any, inl,
  inr, Bool-cases,
}
use fulfillhub_go_commerce_p.Dict
use fulfillhub_go_commerce_p.Dict.{get-put_self}
use fulfillhub_go_commerce_p.Commerce.Status.{OrderStatus, validate_order_transition}
use fulfillhub_go_commerce_p.Commerce.Model.{Order, OrderItem, Payment, is_reserved}
use fulfillhub_go_commerce_p.Commerce.Event.{EventType, OutboxEvent, event_type_eq}
use fulfillhub_go_commerce_p.Commerce.Result.{Error, ok, err}
use fulfillhub_go_commerce_p.Commerce.Store.{
  MemoryStore, find_order, check_transition, save_order, emit, append_audit, append_outbox_event,
}
use fulfillhub_go_commerce_p.Commerce.Store.Projection.{
  record_inventory_rejected, record_payment_failed, record_shipment_failed, compensated,
  compensated_items, release_reserved, void_authorized,
}
use fulfillhub_go_commerce_p.Commerce.Store.Projection
use fulfillhub_go_commerce_p.Fulfillment.Ports.{memory_projector}
use fulfillhub_go_commerce_p.Fulfillment.Rules.{
  validate_event, validate_event_identity, compensation_plan, has_reserved_inventory,
  has_authorized_payment,
}
use fulfillhub_go_commerce_p.Fulfillment.Handlers.{
  reserve_inventory, authorize_payment, create_shipment, record_compensation,
}
use fulfillhub_go_commerce_p.Fulfillment.Saga.{
  Draws, Draw, Providers, worker, Leaves, advanced, validate-identity, passed, Handles,
}

-- Providers that all answer with one error.
abbrev pub refusing : Error → Providers
refusing cause = record {
  reserves = some (λ e. err cause);
  authorizes = some (λ e. err cause);
  ships = some (λ e. err cause);
}

pub none_reserved :
    (items : List OrderItem)
    → any (λ i. is_reserved i.reservation_status) (map release_reserved items) ≡ false
none_reserved [] = refl
none_reserved (item ∷ items) = ground (arith, none_reserved items)

pub none_authorized :
    (payment : Option Payment) (order : Order)
    → order.payment ≡ void_authorized payment
    → has_authorized_payment order ≡ false
unfolding has_authorized_payment
none_authorized none order h = rw h refl
none_authorized (some p) order h = elim (Bool-cases (str_eq p.status "authorized")) [
  | inl a ↦ rw h (rw a refl)
  | inr n ↦ rw h (rw n n)
]

module _ (d : Draws) (drawn : Draw d) (cause : Error) (event : OutboxEvent) (s : MemoryStore)
    (o : Order) (found : Dict.get s.orders event.order_id ≡ some o) where
  stock_refused :
      validate_event event EventType.order_created ≡ none
      → (t : MemoryStore) × (reserve_inventory (worker d (refusing cause)) event s ≡ (ok tt, t))
        × Leaves s t event o.status EventType.inventory_rejected
  unfolding reserve_inventory memory_projector record_inventory_rejected find_order save_order emit
      append_audit append_outbox_event event_type_eq
  stock_refused valid = rw valid (
      rw found (
        _,
        refl,
        advanced d (refusing cause) 0 event _ EventType.inventory_rejected _ drawn valid s _ _ refl
            refl refl,
      ))

  payment_refused :
      validate_event event EventType.inventory_reserved ≡ none
      → (t : MemoryStore) × (authorize_payment (worker d (refusing cause)) event s ≡ (ok tt, t))
        × Leaves s t event o.status EventType.payment_failed
  unfolding authorize_payment memory_projector record_payment_failed find_order save_order emit
      append_audit append_outbox_event event_type_eq
  payment_refused valid = rw valid (
      rw found (
        _,
        refl,
        advanced d (refusing cause) 0 event _ EventType.payment_failed _ drawn valid s _ _ refl refl
            refl,
      ))

  shipment_refused :
      validate_event event EventType.payment_authorized ≡ none
      → (t : MemoryStore) × (create_shipment (worker d (refusing cause)) event s ≡ (ok tt, t))
        × Leaves s t event o.status EventType.shipment_failed
  unfolding create_shipment memory_projector record_shipment_failed find_order save_order emit
      append_audit append_outbox_event event_type_eq
  shipment_refused valid = rw valid (
      rw found (
        _,
        refl,
        advanced d (refusing cause) 0 event _ EventType.shipment_failed _ drawn valid s _ _ refl
            refl refl,
      ))

-- What the compensation of `event` leaves: the order at `status`, no event for any other worker.
pub record Settled (s u : MemoryStore) (id : String) (status : OrderStatus) : Type 0 where
  pub order : Order
  pub found : Dict.get u.orders id ≡ some order
  pub reached : order.status ≡ status
  pub silent : u.outbox ≡ s.outbox

module _ (d : Draws) (p : Providers) (event : OutboxEvent) (s : MemoryStore) (o : Order)
    (found : Dict.get s.orders event.order_id ≡ some o) where
  compensate_stock :
      event.event_type ≡ EventType.inventory_rejected
      → validate_event_identity event ≡ none
      → o.status ≡ OrderStatus.pending_fulfillment
      → (u : MemoryStore) × (record_compensation (worker d p) event s ≡ (ok tt, u))
        × Settled s u event.order_id OrderStatus.failed
  unfolding record_compensation memory_projector Projection.record_compensation compensation_plan
      find_order check_transition save_order append_audit compensated validate_order_transition
  compensate_stock typed valid pending = rw valid (
      rw typed (
        rw found (
          rw pending (
            _,
            refl,
            record {
              order = _;
              found = get-put_self s.orders event.order_id _;
              reached = refl;
              silent = refl;
            },
          ))))

  compensate_payment :
      event.event_type ≡ EventType.payment_failed
      → validate_event_identity event ≡ none
      → o.status ≡ OrderStatus.inventory_reserved
      → (u : MemoryStore) × (record_compensation (worker d p) event s ≡ (ok tt, u))
        × (settled : Settled s u event.order_id OrderStatus.cancelled) × (has_reserved_inventory
              settled.order
            ≡ false)
  unfolding record_compensation memory_projector Projection.record_compensation compensation_plan
      find_order check_transition save_order append_audit compensated validate_order_transition
      compensated_items has_reserved_inventory
  compensate_payment typed valid reserved = rw valid (
      rw typed (
        rw found (
          rw reserved (
            _,
            refl,
            record {
              order = _;
              found = get-put_self s.orders event.order_id _;
              reached = refl;
              silent = refl;
            },
            none_reserved o.items,
          ))))

  compensate_shipment :
      event.event_type ≡ EventType.shipment_failed
      → validate_event_identity event ≡ none
      → o.status ≡ OrderStatus.payment_authorized
      → (u : MemoryStore) × (record_compensation (worker d p) event s ≡ (ok tt, u))
        × (settled : Settled s u event.order_id OrderStatus.cancellation_pending)
        × (has_reserved_inventory settled.order ≡ false)
        × (has_authorized_payment settled.order ≡ false)
  unfolding record_compensation memory_projector Projection.record_compensation compensation_plan
      find_order check_transition save_order append_audit compensated validate_order_transition
      compensated_items has_reserved_inventory
  compensate_shipment typed valid authorized = rw valid (
      rw typed (
        rw found (
          rw authorized (
            _,
            refl,
            record {
              order = _;
              found = get-put_self s.orders event.order_id _;
              reached = refl;
              silent = refl;
            },
            none_reserved o.items,
            none_authorized o.payment _ refl,
          ))))

-- With identifiers drawn that are not empty, a well-formed `order.created` event about a pending order whose stock is refused: the inventory
-- worker succeeds and appends an event about that order, and the compensation worker succeeds on that
-- event, leaves the order failed and appends no event.
pub refused_stock_fails :
    (d d' : Draws) (p : Providers) (cause : Error) (e : OutboxEvent) (s : MemoryStore) (o : Order)
    → Draw d
    → validate_event e EventType.order_created ≡ none
    → Dict.get s.orders e.order_id ≡ some o
    → o.status ≡ OrderStatus.pending_fulfillment
    → (e1 : OutboxEvent) × (t u : MemoryStore) × Handles
        (reserve_inventory (worker d (refusing cause)))
        e
        s
        e1
        t
      × (e1.order_id ≡ e.order_id)
      × (record_compensation (worker d' p) e1 t ≡ (ok tt, u))
      × Settled t u e1.order_id OrderStatus.failed
refused_stock_fails d d' p cause e s o drawn valid found pending =
    let (t, h, l) = stock_refused d drawn cause e s o found valid in
    let (u, k, settled) =
      compensate_stock d' p l.emitted t l.order (passed l) l.typed
        (validate-identity l.emitted _ l.accepted) (l.reached ∙ pending) in
    (l.emitted, t, u, (h, l.appended), l.same_order, k, settled)

-- With identifiers drawn that are not empty, a well-formed `inventory.reserved` event about a reserved order whose payment is refused: the
-- payment worker succeeds and appends an event about that order, and the compensation worker succeeds
-- on that event, leaves the order cancelled with no item reserved and appends no event.
pub refused_payment_cancels :
    (d d' : Draws) (p : Providers) (cause : Error) (e : OutboxEvent) (s : MemoryStore) (o : Order)
    → Draw d
    → validate_event e EventType.inventory_reserved ≡ none
    → Dict.get s.orders e.order_id ≡ some o
    → o.status ≡ OrderStatus.inventory_reserved
    → (e1 : OutboxEvent) × (t u : MemoryStore) × Handles
        (authorize_payment (worker d (refusing cause)))
        e
        s
        e1
        t
      × (e1.order_id ≡ e.order_id)
      × (record_compensation (worker d' p) e1 t ≡ (ok tt, u))
      × (settled : Settled t u e1.order_id OrderStatus.cancelled) × (has_reserved_inventory
            settled.order
          ≡ false)
refused_payment_cancels d d' p cause e s o drawn valid found reserved =
    let (t, h, l) = payment_refused d drawn cause e s o found valid in
    let (u, k, settled, free) =
      compensate_payment d' p l.emitted t l.order (passed l) l.typed
        (validate-identity l.emitted _ l.accepted) (l.reached ∙ reserved) in
    (l.emitted, t, u, (h, l.appended), l.same_order, k, settled, free)

-- With identifiers drawn that are not empty, a well-formed `payment.authorized` event about a paid order whose shipment is refused: the shipment
-- worker succeeds and appends an event about that order, and the compensation worker succeeds on that
-- event, leaves the order at `cancellation_pending`, not at `manual_review`, with no item reserved and
-- no authorized payment, and appends no event that would move the order on.
pub refused_shipment_waits :
    (d d' : Draws) (p : Providers) (cause : Error) (e : OutboxEvent) (s : MemoryStore) (o : Order)
    → Draw d
    → validate_event e EventType.payment_authorized ≡ none
    → Dict.get s.orders e.order_id ≡ some o
    → o.status ≡ OrderStatus.payment_authorized
    → (e1 : OutboxEvent) × (t u : MemoryStore) × Handles
        (create_shipment (worker d (refusing cause)))
        e
        s
        e1
        t
      × (e1.order_id ≡ e.order_id)
      × (record_compensation (worker d' p) e1 t ≡ (ok tt, u))
      × (settled : Settled t u e1.order_id OrderStatus.cancellation_pending)
      × (has_reserved_inventory settled.order ≡ false)
      × (has_authorized_payment settled.order ≡ false)
refused_shipment_waits d d' p cause e s o drawn valid found authorized =
    let (t, h, l) = shipment_refused d drawn cause e s o found valid in
    let (u, k, settled, free, unpaid) =
      compensate_shipment d' p l.emitted t l.order (passed l) l.typed
        (validate-identity l.emitted _ l.accepted) (l.reached ∙ authorized) in
    (l.emitted, t, u, (h, l.appended), l.same_order, k, settled, free, unpaid)
