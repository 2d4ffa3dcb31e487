-- ===== src/Examples/Saga.antt =====
-- One order through the saga, with and without refusals.
use fulfillhub_go_commerce_p.Prelude.{◌≡◌, refl, false, none, some}
use fulfillhub_go_commerce_p.Dict
use fulfillhub_go_commerce_p.Dict.{get-put_self}
use fulfillhub_go_commerce_p.Commerce.Status.{OrderStatus}
use fulfillhub_go_commerce_p.Commerce.Model.{Order, Payment}
use fulfillhub_go_commerce_p.Commerce.Event.{EventType, OutboxEvent, event_type_eq}
use fulfillhub_go_commerce_p.Commerce.Result.{Error, ok, failure}
use fulfillhub_go_commerce_p.Commerce.Store.{MemoryStore, new_memory_store}
use fulfillhub_go_commerce_p.Commerce.Service.{new_order}
use fulfillhub_go_commerce_p.Fulfillment.Rules.{
  validate_event, validate_event_identity, has_reserved_inventory, has_authorized_payment,
}
use fulfillhub_go_commerce_p.Fulfillment.Handlers.{
  reserve_inventory, authorize_payment, create_shipment, complete_order, record_compensation,
  cancel_order,
}
use fulfillhub_go_commerce_p.Fulfillment.Saga.{Draws, Draw, worker, Handles, IsAt}
use fulfillhub_go_commerce_p.Fulfillment.Saga.Forward.{no_providers, saga_completes}
use fulfillhub_go_commerce_p.Fulfillment.Saga.Compensation.{
  refusing, Settled, refused_stock_fails, refused_payment_cancels, refused_shipment_waits,
}
use fulfillhub_go_commerce_p.Fulfillment.Saga.Cancellation.{Resolved, cancellation_resolves}
use fulfillhub_go_commerce_p.Fulfillment.Saga.Adapted.{adapted, Paid, adapted_payment_authorized}
use fulfillhub_go_commerce_p.Examples.Data.{hashing, draw, request, merchant, event}

abbrev draws : Draws
draws = record { clock = 150; new_id = λ n prefix. "id_7" }

drawn : Draw draws
drawn n prefix = refl

abbrev cause : Error
cause = failure "refused"

abbrev order_at : OrderStatus → Order
order_at status = record (new_order hashing draw merchant request) { status = status }

abbrev store_at : OrderStatus → MemoryStore
store_at status = record new_memory_store {
  orders = Dict.put new_memory_store.orders "ord_1" (order_at status);
}

found : (status : OrderStatus) → Dict.get (store_at status).orders "ord_1" ≡ some (order_at status)
found status = get-put_self new_memory_store.orders "ord_1" (order_at status)

abbrev created : OutboxEvent
created = event "msg_1" EventType.order_created

abbrev reserved : OutboxEvent
reserved = event "msg_1" EventType.inventory_reserved

abbrev authorized : OutboxEvent
authorized = event "msg_1" EventType.payment_authorized

abbrev cancelling : OutboxEvent
cancelling = event "msg_1" EventType.order_cancel_requested

created_valid : validate_event created EventType.order_created ≡ none
unfolding validate_event validate_event_identity event_type_eq
created_valid = refl

reserved_valid : validate_event reserved EventType.inventory_reserved ≡ none
unfolding validate_event validate_event_identity event_type_eq
reserved_valid = refl

authorized_valid : validate_event authorized EventType.payment_authorized ≡ none
unfolding validate_event validate_event_identity event_type_eq
authorized_valid = refl

cancelling_valid : validate_event cancelling EventType.order_cancel_requested ≡ none
unfolding validate_event validate_event_identity event_type_eq
cancelling_valid = refl

saga_completes_example :
    (e1 e2 e3 e4 : OutboxEvent) × (t1 t2 t3 t4 : MemoryStore) × Handles
      (reserve_inventory (worker draws no_providers))
      created
      (store_at OrderStatus.pending_fulfillment)
      e1
      t1
    × Handles (authorize_payment (worker draws no_providers)) e1 t1 e2 t2
    × Handles (create_shipment (worker draws no_providers)) e2 t2 e3 t3
    × Handles (complete_order (worker draws no_providers)) e3 t3 e4 t4
    × IsAt t4 "ord_1" OrderStatus.completed
saga_completes_example =
    saga_completes draws draws draws draws created (store_at OrderStatus.pending_fulfillment)
      (order_at OrderStatus.pending_fulfillment) drawn drawn drawn drawn created_valid
      (found OrderStatus.pending_fulfillment) refl

refused_stock_fails_example :
    (e1 : OutboxEvent) × (t u : MemoryStore) × Handles
      (reserve_inventory (worker draws (refusing cause)))
      created
      (store_at OrderStatus.pending_fulfillment)
      e1
      t
    × (e1.order_id ≡ "ord_1")
    × (record_compensation (worker draws no_providers) e1 t ≡ (ok tt, u))
    × Settled t u e1.order_id OrderStatus.failed
refused_stock_fails_example =
    refused_stock_fails draws draws no_providers cause created
      (store_at OrderStatus.pending_fulfillment) (order_at OrderStatus.pending_fulfillment) drawn
      created_valid (found OrderStatus.pending_fulfillment) refl

refused_payment_cancels_example :
    (e1 : OutboxEvent) × (t u : MemoryStore) × Handles
      (authorize_payment (worker draws (refusing cause)))
      reserved
      (store_at OrderStatus.inventory_reserved)
      e1
      t
    × (e1.order_id ≡ "ord_1")
    × (record_compensation (worker draws no_providers) e1 t ≡ (ok tt, u))
    × (settled : Settled t u e1.order_id OrderStatus.cancelled) × (has_reserved_inventory
          settled.order
        ≡ false)
refused_payment_cancels_example =
    refused_payment_cancels draws draws no_providers cause reserved
      (store_at OrderStatus.inventory_reserved) (order_at OrderStatus.inventory_reserved) drawn
      reserved_valid (found OrderStatus.inventory_reserved) refl

refused_shipment_waits_example :
    (e1 : OutboxEvent) × (t u : MemoryStore) × Handles
      (create_shipment (worker draws (refusing cause)))
      authorized
      (store_at OrderStatus.payment_authorized)
      e1
      t
    × (e1.order_id ≡ "ord_1")
    × (record_compensation (worker draws no_providers) e1 t ≡ (ok tt, u))
    × (settled : Settled t u e1.order_id OrderStatus.cancellation_pending) × (has_reserved_inventory
          settled.order
        ≡ false)
    × (has_authorized_payment settled.order ≡ false)
refused_shipment_waits_example =
    refused_shipment_waits draws draws no_providers cause authorized
      (store_at OrderStatus.payment_authorized) (order_at OrderStatus.payment_authorized) drawn
      authorized_valid (found OrderStatus.payment_authorized) refl

cancellation_resolves_example :
    (t : MemoryStore) × (cancel_order
        (worker draws no_providers)
        cancelling
        (store_at OrderStatus.cancellation_pending)
      ≡ (ok tt, t))
    × Resolved
        (store_at OrderStatus.cancellation_pending)
        t
        cancelling
        (order_at OrderStatus.cancellation_pending)
cancellation_resolves_example =
    cancellation_resolves draws drawn no_providers cancelling
      (store_at OrderStatus.cancellation_pending) (order_at OrderStatus.cancellation_pending)
      (found OrderStatus.cancellation_pending) cancelling_valid refl

abbrev credited : Payment
credited = record {
  provider = "card";
  status = "pending_authorization";
  authorization_id = "";
  credential_ref = "paycred_tok";
}

abbrev credited_order : Order
credited_order = record (order_at OrderStatus.inventory_reserved) { payment = some credited }

abbrev credited_store : MemoryStore
credited_store = record new_memory_store {
  orders = Dict.put new_memory_store.orders "ord_1" credited_order;
}

adapted_payment_authorized_example :
    (t : MemoryStore) × (authorize_payment (adapted draws) reserved credited_store ≡ (ok tt, t))
    × Paid t "ord_1" credited
adapted_payment_authorized_example =
    adapted_payment_authorized draws reserved credited_store credited_order credited
      (get-put_self new_memory_store.orders "ord_1" credited_order) reserved_valid refl refl refl
