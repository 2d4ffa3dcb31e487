-- ===== src/Fulfillment/Saga/Forward.antt =====
-- The forward path of the saga, from `order.created` to `order.completed`.
use fulfillhub_go_commerce_p.Prelude.{◌≡◌, refl, none, some, ◌∙◌}
use fulfillhub_go_commerce_p.Dict
use fulfillhub_go_commerce_p.Dict.{get-put_self}
use fulfillhub_go_commerce_p.Commerce.Status.{OrderStatus, validate_order_transition}
use fulfillhub_go_commerce_p.Commerce.Model.{Order}
use fulfillhub_go_commerce_p.Commerce.Event.{EventType, OutboxEvent, event_type_eq}
use fulfillhub_go_commerce_p.Commerce.Result.{ok}
use fulfillhub_go_commerce_p.Commerce.Store.{
  MemoryStore, find_order, check_transition, save_order, emit, append_audit, append_outbox_event,
  get_order, update_order_status,
}
use fulfillhub_go_commerce_p.Commerce.Store.Projection.{
  record_inventory_reserved, record_payment_authorized, record_shipment_created,
}
use fulfillhub_go_commerce_p.Fulfillment.Ports.{memory_projector, memory_orders}
use fulfillhub_go_commerce_p.Fulfillment.Rules.{validate_event}
use fulfillhub_go_commerce_p.Fulfillment.Handlers.{
  reserve_inventory, authorize_payment, create_shipment, complete_order,
}
use fulfillhub_go_commerce_p.Fulfillment.Saga.{
  Draws, Draw, Providers, worker, Leaves, advanced, IsAt, passed, Handles, Leaves-IsAt,
}

abbrev pub no_providers : Providers
no_providers = record { reserves = none; authorizes = none; ships = none }

module _ (d : Draws) (drawn : Draw d) (event : OutboxEvent) (s : MemoryStore) (o : Order)
    (found : Dict.get s.orders event.order_id ≡ some o) where
  pub reserve_advances :
      validate_event event EventType.order_created ≡ none
      → o.status ≡ OrderStatus.pending_fulfillment
      → (t : MemoryStore) × (reserve_inventory (worker d no_providers) event s ≡ (ok tt, t))
        × Leaves s t event OrderStatus.inventory_reserved EventType.inventory_reserved
  unfolding reserve_inventory memory_projector record_inventory_reserved find_order check_transition
      save_order emit append_audit append_outbox_event validate_order_transition event_type_eq
  reserve_advances valid pending = rw valid (
      rw found (
        rw pending (
          _,
          refl,
          advanced d no_providers 0 event _ EventType.inventory_reserved _ drawn valid s _ _ refl
              refl refl,
        )))

  pub authorize_advances :
      validate_event event EventType.inventory_reserved ≡ none
      → o.status ≡ OrderStatus.inventory_reserved
      → (t : MemoryStore) × (authorize_payment (worker d no_providers) event s ≡ (ok tt, t))
        × Leaves s t event OrderStatus.payment_authorized EventType.payment_authorized
  unfolding authorize_payment memory_projector record_payment_authorized find_order check_transition
      save_order emit append_audit append_outbox_event validate_order_transition event_type_eq
  authorize_advances valid reserved = rw valid (
      rw found (
        rw reserved (
          _,
          refl,
          advanced d no_providers 0 event _ EventType.payment_authorized _ drawn valid s _ _ refl
              refl refl,
        )))

  pub ship_advances :
      validate_event event EventType.payment_authorized ≡ none
      → o.status ≡ OrderStatus.payment_authorized
      → (t : MemoryStore) × (create_shipment (worker d no_providers) event s ≡ (ok tt, t))
        × Leaves s t event OrderStatus.shipment_created EventType.shipment_created
  unfolding create_shipment memory_projector record_shipment_created find_order check_transition
      save_order emit append_audit append_outbox_event validate_order_transition event_type_eq
  ship_advances valid authorized = rw valid (
      rw found (
        rw authorized (
          _,
          refl,
          advanced d no_providers 0 event _ EventType.shipment_created _ drawn valid s _ _ refl refl
              refl,
        )))

  pub complete_advances :
      validate_event event EventType.shipment_created ≡ none
      → o.status ≡ OrderStatus.shipment_created
      → (t : MemoryStore) × (complete_order (worker d no_providers) event s ≡ (ok tt, t))
        × Leaves s t event OrderStatus.completed EventType.order_completed
  unfolding complete_order memory_orders get_order update_order_status find_order check_transition
      save_order emit append_audit append_outbox_event validate_order_transition event_type_eq
  complete_advances valid shipped = rw valid (
      rw found (
        rw shipped (
          rw found (
            rw shipped (
              _,
              refl,
              advanced d no_providers 0 event _ EventType.order_completed _ drawn valid s _ _ refl
                  refl refl,
            )))))

-- Without providers, with identifiers drawn that are not empty, a pending order and a well-formed
-- `order.created` event: the four workers, each
-- handling the event that the one before it appended, all succeed, and leave the order completed.
pub saga_completes :
    (d1 d2 d3 d4 : Draws) (e : OutboxEvent) (s : MemoryStore) (o : Order)
    → Draw d1
    → Draw d2
    → Draw d3
    → Draw d4
    → validate_event e EventType.order_created ≡ none
    → Dict.get s.orders e.order_id ≡ some o
    → o.status ≡ OrderStatus.pending_fulfillment
    → (e1 e2 e3 e4 : OutboxEvent) × (t1 t2 t3 t4 : MemoryStore) × Handles
        (reserve_inventory (worker d1 no_providers))
        e
        s
        e1
        t1
      × Handles (authorize_payment (worker d2 no_providers)) e1 t1 e2 t2
      × Handles (create_shipment (worker d3 no_providers)) e2 t2 e3 t3
      × Handles (complete_order (worker d4 no_providers)) e3 t3 e4 t4
      × IsAt t4 e.order_id OrderStatus.completed
saga_completes d1 d2 d3 d4 e s o w1 w2 w3 w4 valid found pending =
    let (t1, h1, l1) = reserve_advances d1 w1 e s o found valid pending in
    let (t2, h2, l2) =
      authorize_advances d2 w2 l1.emitted t1 l1.order (passed l1) l1.accepted l1.reached in
    let (t3, h3, l3) =
      ship_advances d3 w3 l2.emitted t2 l2.order (passed l2) l2.accepted l2.reached in
    let (t4, h4, l4) =
      complete_advances d4 w4 l3.emitted t3 l3.order (passed l3) l3.accepted l3.reached in
    let same : l3.emitted.order_id ≡ e.order_id = l3.same_order ∙ l2.same_order ∙ l1.same_order in
    (
      l1.emitted,
      l2.emitted,
      l3.emitted,
      l4.emitted,
      t1,
      t2,
      t3,
      t4,
      (h1, l1.appended),
      (h2, l2.appended),
      (h3, l3.appended),
      (h4, l4.appended),
      Leaves-IsAt l4 e.order_id same,
    )
