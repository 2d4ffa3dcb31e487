-- ===== src/Examples/Postgres.antt =====
-- The PostgreSQL store on a small database, under an engine that refuses nothing.
use fulfillhub_go_commerce_p.Prelude.{
  ◌≡◌, refl, true, false, [], ◌∷◌, List, some, none, map, arith, All, String, eq_iff, subst, str_eq,
  ◌⊎◌,
}
use fulfillhub_go_commerce_p.Dict
use fulfillhub_go_commerce_p.Commerce.Status.{is_valid_order_status, validate_order_transition}
use fulfillhub_go_commerce_p.Commerce.Model.{Order}
use fulfillhub_go_commerce_p.Commerce.Event.{EventType, with_envelope_defaults}
use fulfillhub_go_commerce_p.Commerce.Result.{ok, err, failure, error_text, insufficient_stock}
use fulfillhub_go_commerce_p.Commerce.Service.{new_order}
use fulfillhub_go_commerce_p.Commerce.Store.History.{
  Call, inserts, updates, inventory_reserves, order_cancels, claims, publishes,
}
use fulfillhub_go_commerce_p.Postgres.Tables.{Database, count, select, select_row, upsert, total}
use fulfillhub_go_commerce_p.Postgres.{
  Engine, wrap_error, exec, exec_checked, query, found, in_transaction,
}
use fulfillhub_go_commerce_p.Postgres.Calls.{apply, stores, store_call, IsClaimed, failed_call-same}
use fulfillhub_go_commerce_p.Postgres.Rows.{
  nullable_string, update_order, update_items, lock_order_status, validate_transition, lock_for,
  outbox_row, outbox_breach, append_outbox, insert_outbox_event, insert_encoded, insert_audit_log,
}
use fulfillhub_go_commerce_p.Postgres.Orders.{
  add_merchant, order_row, order_breach, item_row, item_breach, key_breach, order_by_idempotency,
  insert_order_row, insert_items, insert_key, insert_new, insert_or_replay, insert_order, set_order,
}
use fulfillhub_go_commerce_p.Postgres.Stock.{
  order_items_for_reservation, reservation_items, some_items, is_candidate, most_available,
  candidate, take_stock, reserve_at, set_reservation, take_candidate, reserve_new, reserve_again,
  reserve_inventory_item, reserve_item, reserve_items,
}
use fulfillhub_go_commerce_p.Postgres.Projection.{advance_order, publish, record_inventory_reserved}
use fulfillhub_go_commerce_p.Commerce.Contract.{IsPromised}
use fulfillhub_go_commerce_p.Commerce.Contract.Memory.{memory_store-IsPromised}
use fulfillhub_go_commerce_p.Commerce.Contract.Moves.{memory_view}
use fulfillhub_go_commerce_p.Commerce.Store.{
  MemoryStore, new_memory_store, find_order, check_transition, save_order, emit, append_audit,
  append_outbox_event,
}
use fulfillhub_go_commerce_p.Commerce.Store
use fulfillhub_go_commerce_p.Commerce.Store.Projection
use fulfillhub_go_commerce_p.Commerce.Store.History
use fulfillhub_go_commerce_p.Postgres.Outbox.{has_row, picked, claim_rows, pending_outbox_events}
use fulfillhub_go_commerce_p.Postgres.Outbox.Claims.{rows_claimed_once}
use fulfillhub_go_commerce_p.Postgres.Inbox.{
  record_inbox_message, release_inbox_message, add_inbox_row,
}
use fulfillhub_go_commerce_p.Postgres.Inbox.Once.{recorded_once}
use fulfillhub_go_commerce_p.Postgres.Contract.{database_view, row_status, row_message}
use fulfillhub_go_commerce_p.Postgres.Contract.Calls.{postgres_store-IsPromised}
use fulfillhub_go_commerce_p.Postgres.Contract.Agreement.{
  Agrees, IsLegalMove, stores_agree, successful_move-IsLegalMove,
}
use fulfillhub_go_commerce_p.Postgres.Ledger.{OnHand, hand}
use fulfillhub_go_commerce_p.Postgres.Ledger.Calls.{Books, successful_call-Books}
use fulfillhub_go_commerce_p.Examples.Data.{hashing, draw, request, merchant, key, event, audit}

abbrev calm : Engine
calm = record {
  refuses = λ label db. none;
  breach = λ label db. "refused";
  breaks_off = λ label db. none;
  read_time = λ t. t;
  read_code = λ c. c;
  marshal = λ e. ok e.message_id;
  unmarshal = λ text. err (failure text);
}

abbrev stocked : Database
stocked = record {
  merchants = merchant ∷ [];
  orders = [];
  order_items = [];
  idempotency_keys = [];
  warehouses =
      record { id = "w1"; merchant_id = merchant; status = "active" }
      ∷ record { id = "w2"; merchant_id = merchant; status = "inactive" }
      ∷ [];
  inventory_items =
      record {
        warehouse_id = "w1";
        sku = "sku-1";
        available_quantity = 5;
        reserved_quantity = 0;
        updated_at = 1;
      }
      ∷ record {
        warehouse_id = "w1";
        sku = "sku-2";
        available_quantity = 1;
        reserved_quantity = 0;
        updated_at = 1;
      }
      ∷ [];
  stock_reservations = [];
  payment_authorizations = [];
  shipments = [];
  outbox_events = [];
  inbox_messages = [];
  notification_events = [];
  compensation_events = [];
  audit_logs = [];
}

abbrev first_order : Order
first_order = new_order hashing draw merchant request

abbrev inserting : Call
inserting =
    inserts merchant key first_order (event "msg_1" EventType.order_created) (audit "order.create")

abbrev ordered : Database
ordered = record stocked {
  orders = order_row merchant first_order ∷ [];
  order_items = map (item_row "ord_1") first_order.items;
  idempotency_keys =
      record { merchant_id = merchant; idempotency_key = key; order_id = "ord_1" } ∷ [];
  outbox_events =
      outbox_row (with_envelope_defaults (event "msg_1" EventType.order_created)) "msg_1" ∷ [];
  audit_logs = audit "order.create" ∷ [];
}

order_inserted : apply calm inserting stocked ≡ (ok tt, ordered)
unfolding apply insert_order in_transaction query order_by_idempotency insert_or_replay insert_new
    exec exec_checked order_breach order_row item_breach item_row key_breach insert_order_row
    insert_items insert_key insert_outbox_event insert_encoded outbox_breach append_outbox
    outbox_row insert_audit_log new_order select_row add_merchant is_valid_order_status
    with_envelope_defaults
order_inserted = refl

abbrev reserving : Call
reserving =
    inventory_reserves (event "msg_1" EventType.order_created)
      (event "msg_2" EventType.inventory_reserved) (audit "inventory.reserved")

abbrev reserved : Database
reserved = (apply calm reserving ordered).1

stock_reserved : apply calm reserving ordered ≡ (ok tt, reserved)
unfolding apply insert_order in_transaction query order_by_idempotency insert_or_replay insert_new
    exec exec_checked order_breach order_row item_breach item_row key_breach insert_order_row
    insert_items insert_key insert_outbox_event insert_encoded outbox_breach append_outbox
    outbox_row insert_audit_log new_order select_row add_merchant record_inventory_reserved lock_for
    lock_order_status found validate_transition validate_order_transition
    order_items_for_reservation reservation_items some_items select reserve_items reserve_item
    reserve_inventory_item reserve_again reserve_new candidate is_candidate most_available
    take_candidate reserve_at take_stock set_reservation nullable_string upsert update_items
    advance_order set_order update_order publish with_envelope_defaults
stock_reserved = refl

postgres_store-IsPromised_example :
    IsPromised reserving (database_view ordered) (database_view reserved)
postgres_store-IsPromised_example =
    postgres_store-IsPromised calm reserving ordered reserved stock_reserved

-- The memory store with the same order.
abbrev memory_ordered : MemoryStore
memory_ordered = (History.apply inserting new_memory_store).1

abbrev memory_reserved : MemoryStore
memory_reserved = (History.apply reserving memory_ordered).1

memory_stock_reserved : History.apply reserving memory_ordered ≡ (ok tt, memory_reserved)
unfolding History.apply Store.insert_order new_memory_store Dict.empty Dict.get Dict.put
    append_audit append_outbox_event new_order Projection.record_inventory_reserved find_order
    check_transition save_order emit validate_order_transition
memory_stock_reserved = refl

memory_store-IsPromised_example :
    IsPromised reserving (memory_view memory_ordered) (memory_view memory_reserved)
memory_store-IsPromised_example =
    memory_store-IsPromised reserving memory_ordered memory_reserved memory_stock_reserved

ordered-Agrees : Agrees (database_view ordered) (memory_view memory_ordered)
unfolding database_view memory_view row_status row_message select_row order_row outbox_row
    History.apply Store.insert_order new_memory_store Dict.empty Dict.get Dict.put append_audit
    append_outbox_event new_order with_envelope_defaults
ordered-Agrees = record { status = λ id. ground arith; outbox = refl; audits = refl }

stores_agree_example : Agrees (database_view reserved) (memory_view memory_reserved)
stores_agree_example =
    stores_agree calm reserving ordered reserved memory_ordered memory_reserved tt ordered-Agrees
      stock_reserved memory_stock_reserved

successful_move-IsLegalMove_example :
    IsLegalMove ((database_view ordered).status "ord_1") ((database_view reserved).status "ord_1")
successful_move-IsLegalMove_example =
    successful_move-IsLegalMove calm reserving ordered reserved tt stock_reserved "ord_1"

-- Nothing on the shelf.
abbrev sold_out : Database
sold_out = record ordered { inventory_items = [] }

reservation_refused :
    apply calm reserving sold_out ≡ (err (insufficient_stock (some "sku-1")), sold_out)
unfolding apply insert_order in_transaction query order_by_idempotency insert_or_replay insert_new
    exec exec_checked order_breach order_row item_breach item_row key_breach insert_order_row
    insert_items insert_key insert_outbox_event insert_encoded outbox_breach append_outbox
    outbox_row insert_audit_log new_order select_row add_merchant record_inventory_reserved lock_for
    lock_order_status found validate_transition validate_order_transition
    order_items_for_reservation reservation_items some_items select reserve_items reserve_item
    reserve_inventory_item reserve_again reserve_new candidate is_candidate most_available
    take_candidate reserve_at take_stock set_reservation nullable_string upsert update_items
    advance_order set_order update_order publish with_envelope_defaults
reservation_refused = refl

reservation_call_refused :
    store_call calm (stores reserving) sold_out
    ≡ (err (insufficient_stock (some "sku-1")), sold_out)
unfolding store_call
reservation_call_refused = reservation_refused

failed_call-same_example : (sold_out ≡ sold_out) ⊎ IsClaimed (stores reserving) sold_out sold_out
failed_call-same_example =
    failed_call-same calm (stores reserving) sold_out (insufficient_stock (some "sku-1")) sold_out
      reservation_call_refused

-- The order's event is claimed although its payload does not decode.
claim_unread :
    (store_call calm (stores (claims 200 5)) ordered).0
    ≡ err (failure "scan pending outbox event: msg_1")
unfolding store_call pending_outbox_events query exec select outbox_row wrap_error error_text
claim_unread = refl

abbrev hands : List OnHand
hands = map hand stocked.inventory_items

other_sku : (k : String) → str_eq "sku-1" k ≡ true → str_eq "sku-2" k ≡ false
other_sku k h = subst (λ x. str_eq "sku-2" x ≡ false) ((eq_iff "sku-1" k).0 h) refl

ordered_Books : Books hands ordered.inventory_items ordered.stock_reservations
unfolding count total
ordered_Books = (
  record {
    reservations_unique = λ o sku. omega arith;
    inventory_unique = λ w sku. ground (arith, other_sku sku);
    warehouses_named = (refl, (refl, tt));
    reserved = (refl, (refl, tt));
  },
  refl,
)

successful_call-Books_example : Books hands reserved.inventory_items reserved.stock_reservations
successful_call-Books_example =
    successful_call-Books calm hands reserving ordered reserved ordered_Books stock_reserved

rows_claimed_once_example :
    All
      (λ row. has_row row (picked 200 5 ordered.outbox_events) ≡ false)
      (picked 300 5 (claim_rows 200 5 ordered).outbox_events)
rows_claimed_once_example = rows_claimed_once 200 300 (omega arith) 5 5 ordered

abbrev delivered : Database
delivered =
    (record_inbox_message calm "inventory" (event "msg_1" EventType.order_created) stocked).1

abbrev released : Database
released =
    (release_inbox_message calm "inventory" (event "msg_1" EventType.order_created) delivered).1

abbrev redelivered : Database
redelivered =
    (record_inbox_message calm "inventory" (event "msg_1" EventType.order_created) released).1

recorded_once_example : (false ≡ false) × (true ≡ true)
unfolding record_inbox_message release_inbox_message exec query add_inbox_row select
recorded_once_example =
    recorded_once calm "inventory" (event "msg_1" EventType.order_created) stocked delivered
      delivered released true false true redelivered refl refl refl refl
