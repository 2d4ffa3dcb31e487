-- ===== src/Examples/Store.antt =====
-- The memory store along a short history.
use fulfillhub_go_commerce_p.Prelude.{
  ◌≤◌, ◌≡◌, refl, ◌≢◌, true, false, [], ◌∷◌, List, length, Option, some, none, map, arith, inl, inr,
  All,
}
use fulfillhub_go_commerce_p.Prelude.Text.{is_blank}
use fulfillhub_go_commerce_p.Dict
use fulfillhub_go_commerce_p.Dict.{get-empty, get-put_self}
use fulfillhub_go_commerce_p.Commerce.Status.{
  OrderStatus, validate_order_transition, is_valid_order_status,
}
use fulfillhub_go_commerce_p.Commerce.Status.Lifecycle.{◌⟶*◌}
use fulfillhub_go_commerce_p.Commerce.Model.{Order, ReservationStatus}
use fulfillhub_go_commerce_p.Commerce.Event.{EventType}
use fulfillhub_go_commerce_p.Commerce.Result.{ok, err, not_found}
use fulfillhub_go_commerce_p.Commerce.Validation.{validate_create_order}
use fulfillhub_go_commerce_p.Commerce.Store.{
  MemoryStore, new_memory_store, insert_order, find_order, check_transition, save_order, emit,
  append_audit, append_outbox_event,
}
use fulfillhub_go_commerce_p.Commerce.Store.Projection.{
  record_inventory_reserved, record_compensation, mark,
}
use fulfillhub_go_commerce_p.Commerce.Store.Outbox.{pending_outbox_events, mark_outbox_published}
use fulfillhub_go_commerce_p.Commerce.Store.Outbox.Claims.{pending_outbox_events_bounded}
use fulfillhub_go_commerce_p.Commerce.Store.Counts.{
  order_status_counts, orders_at, order_status_counts-orders_at,
}
use fulfillhub_go_commerce_p.Commerce.Store.Move.{SameTerms}
use fulfillhub_go_commerce_p.Commerce.Store.Invariant.{IsIndexed}
use fulfillhub_go_commerce_p.Commerce.Store.History.{
  Call, inserts, inventory_reserves, compensates, claims, publishes, apply, step, run, AllDrawn,
  failed_call_unchanged,
}
use fulfillhub_go_commerce_p.Commerce.Store.History.Orders.{Later, run-Later, terminal_order_final}
use fulfillhub_go_commerce_p.Commerce.Store.History.Changes.{status_changes, status_changes_bounded}
use fulfillhub_go_commerce_p.Commerce.Store.History.Relay.{claims_exclusive}
use fulfillhub_go_commerce_p.Commerce.Store.History.Logs.{Extends, run-Extends}
use fulfillhub_go_commerce_p.Commerce.Store.History.Indexes.{run-IsIndexed, external_order_unique}
use fulfillhub_go_commerce_p.Commerce.Service.{new_order, create_order}
use fulfillhub_go_commerce_p.Commerce.Service.Replay.{created_order_replays}
use fulfillhub_go_commerce_p.Examples.Data.{
  hashing, draw, later_draw, request, merchant, key, event, audit,
}

abbrev first_order : Order
first_order = new_order hashing draw merchant request

request_valid : validate_create_order merchant key request ≡ []
unfolding validate_create_order is_blank Dict.empty Dict.get Dict.put
request_valid = refl

abbrev first_store : MemoryStore
first_store = (create_order hashing draw merchant key "corr" request new_memory_store).1

request_creates :
    create_order hashing draw merchant key "corr" request new_memory_store
    ≡ (ok (some first_order, false), first_store)
unfolding create_order insert_order new_memory_store validate_create_order is_blank Dict.empty
    Dict.get Dict.put
request_creates = refl

abbrev later_calls : List Call
later_calls =
    inventory_reserves (event "msg_1" EventType.order_created)
      (event "msg_2" EventType.inventory_reserved) (audit "inventory.reserved")
    ∷ claims 200 5
    ∷ publishes "msg_1" 210
    ∷ []

created_order_replays_example :
    (p : Order) × (create_order hashing later_draw merchant key "corr-2" request
        (run first_store later_calls)
      ≡ (ok (some p, true), run first_store later_calls))
    × SameTerms first_order p
    × (first_order.status ⟶* p.status)
created_order_replays_example =
    created_order_replays hashing draw merchant key "corr" request new_memory_store first_store
      first_order later_calls later_draw "corr-2" request request_creates (tt, (tt, (tt, tt)))
      request_valid

-- The history moves the order on.
abbrev status_at : Option Order → Option OrderStatus
status_at none = none
status_at (some order) = some order.status

moved_on :
    status_at (Dict.get (run first_store later_calls).orders "ord_1")
    ≡ some OrderStatus.inventory_reserved
unfolding create_order insert_order new_memory_store validate_create_order is_blank Dict.empty
    Dict.get Dict.put Dict.remove run step apply record_inventory_reserved find_order
    check_transition save_order emit validate_order_transition append_audit append_outbox_event
    pending_outbox_events mark_outbox_published new_order
moved_on = refl

first_found : Dict.get first_store.orders "ord_1" ≡ some first_order
unfolding create_order insert_order new_memory_store validate_create_order is_blank Dict.empty
    Dict.get Dict.put append_audit append_outbox_event new_order
first_found = refl

run-Later_example : Later (run first_store later_calls).orders "ord_1" first_order
run-Later_example =
    run-Later first_store later_calls (tt, (tt, (tt, tt))) "ord_1" first_order first_found

status_changes_bounded_example : status_changes "ord_1" first_store later_calls ≤ 5
status_changes_bounded_example =
    status_changes_bounded "ord_1" first_store later_calls (tt, (tt, (tt, tt)))

run-Extends_example : Extends first_store (run first_store later_calls)
run-Extends_example = run-Extends first_store later_calls

abbrev creating_calls : List Call
creating_calls =
    inserts merchant key first_order (event "msg_1" EventType.order_created) (audit "order.create")
    ∷ inventory_reserves (event "msg_1" EventType.order_created)
        (event "msg_2" EventType.inventory_reserved) (audit "inventory.reserved")
    ∷ []

creating_drawn : AllDrawn new_memory_store creating_calls
unfolding new_memory_store new_order
creating_drawn = ((get-empty {V = Order} "ord_1", refl), (tt, tt))

run-IsIndexed_example : IsIndexed (run new_memory_store creating_calls)
run-IsIndexed_example = run-IsIndexed creating_calls creating_drawn

abbrev reserved_order : Order
reserved_order = record first_order {
  items = map (mark ReservationStatus.reserved) first_order.items;
  status = OrderStatus.inventory_reserved;
  updated_at = 150;
}

reserved_found : Dict.get (run new_memory_store creating_calls).orders "ord_1" ≡ some reserved_order
unfolding create_order insert_order new_memory_store validate_create_order is_blank Dict.empty
    Dict.get Dict.put Dict.remove run step apply record_inventory_reserved find_order
    check_transition save_order emit validate_order_transition append_audit append_outbox_event
    pending_outbox_events mark_outbox_published new_order
reserved_found = refl

external_order_unique_example : first_order.order_id ≡ reserved_order.order_id
unfolding new_order
external_order_unique_example =
    external_order_unique creating_calls creating_drawn "ord_1" "ord_1" reserved_order
      reserved_order reserved_found reserved_found refl refl

-- A compensation for an order that does not exist fails.
missing_fails :
    (apply
      (compensates
        (event "msg_9" EventType.shipment_failed)
        OrderStatus.cancellation_pending
        (audit "compensated"))
      new_memory_store).0
    ≡ err not_found
unfolding apply record_compensation find_order new_memory_store Dict.get Dict.empty
missing_fails = refl

failed_call_unchanged_example :
    step new_memory_store (
      compensates
        (event "msg_9" EventType.shipment_failed)
        OrderStatus.cancellation_pending
        (audit "compensated"))
    ≡ new_memory_store
failed_call_unchanged_example =
    failed_call_unchanged
      (compensates (event "msg_9" EventType.shipment_failed) OrderStatus.cancellation_pending
        (audit "compensated"))
      new_memory_store not_found missing_fails

abbrev cancelled_order : Order
cancelled_order = record first_order { status = OrderStatus.cancelled }

abbrev cancelled_store : MemoryStore
cancelled_store = record new_memory_store {
  orders = Dict.put new_memory_store.orders "ord_1" cancelled_order;
}

terminal_order_final_example :
    (p : Order) × (Dict.get (run cancelled_store later_calls).orders "ord_1" ≡ some p)
    × (p.status ≡ OrderStatus.cancelled)
terminal_order_final_example =
    terminal_order_final cancelled_store later_calls (tt, (tt, (tt, tt))) "ord_1" cancelled_order
      (get-put_self new_memory_store.orders "ord_1" cancelled_order) (inr (inl refl))

abbrev two_events : MemoryStore
two_events = record new_memory_store {
  outbox = event "msg_1" EventType.order_created ∷ event "msg_2" EventType.inventory_reserved ∷ [];
}

claims_exclusive_example :
    let (first, t) = pending_outbox_events 200 1 two_events in
    let (again, u) =
      pending_outbox_events 300 5 (run t (publishes "msg_1" 210 ∷ claims 220 1 ∷ [])) in
    All (λ e. All (λ f. f.message_id ≢ e.message_id) again) first
claims_exclusive_example =
    claims_exclusive 200 300 1 5 two_events (publishes "msg_1" 210 ∷ claims 220 1 ∷ [])
      (omega arith) (tt, (omega arith, tt))

pending_outbox_events_bounded_example : length (pending_outbox_events 200 1 two_events).0 ≤ 1
pending_outbox_events_bounded_example = pending_outbox_events_bounded 200 1 two_events (omega arith)

cancelled_known : is_valid_order_status OrderStatus.cancelled ≡ true
unfolding is_valid_order_status
cancelled_known = refl

order_status_counts-orders_at_example :
    order_status_counts cancelled_store OrderStatus.cancelled
    ≡ some (orders_at OrderStatus.cancelled (Dict.values cancelled_store.orders))
order_status_counts-orders_at_example =
    order_status_counts-orders_at cancelled_store OrderStatus.cancelled cancelled_known
