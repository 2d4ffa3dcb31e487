-- ===== src/Examples/Consumer.antt =====
-- A consumer over a counting store: a first delivery, its redelivery, and a failed handling.
use fulfillhub_go_commerce_p.Prelude.{ℕ, ◌+◌, ◌≡◌, refl, true, false, [], ◌∷◌, ◌++◌, some, none}
use fulfillhub_go_commerce_p.Dict
use fulfillhub_go_commerce_p.Json.{field, text, end}
use fulfillhub_go_commerce_p.Commerce.Event.{EventType, OutboxEvent, with_envelope_defaults}
use fulfillhub_go_commerce_p.Commerce.Result.{Op, ok, err, not_found}
use fulfillhub_go_commerce_p.Messaging.Inbox.{MemoryInbox, memory_inbox, new_memory_inbox}
use fulfillhub_go_commerce_p.Messaging.Delivery.{Delivery, int, decode_delivery, fill_from_delivery}
use fulfillhub_go_commerce_p.Messaging.Consumer.{Broker, Consumer, World, ack, process_delivery}
use fulfillhub_go_commerce_p.Messaging.Consumer.Settlement.{Follows, process_delivery-Script}
use fulfillhub_go_commerce_p.Messaging.Consumer.Deduplication.{
  Released, is_processed, redelivery_handled_once, failed_delivery-Released,
}
use fulfillhub_go_commerce_p.Examples.Data.{event}

abbrev counting : OutboxEvent → Op ℕ (Unit {0})
counting e n = (ok tt, n + 1)

abbrev failing : OutboxEvent → Op ℕ (Unit {0})
failing e n = (err not_found, n)

abbrev message : OutboxEvent
message = record (event "msg_1" EventType.order_created) {
  payload = field "order_status" (text "pending_fulfillment") end;
}

abbrev consumer : (OutboxEvent → Op ℕ (Unit {0})) → Consumer ℕ MemoryInbox
consumer handler = record {
  queue = "inventory-worker";
  consumer_name = "";
  inbox = some memory_inbox;
  handler = some handler;
  retries = true;
  max_retries = 3;
  unmarshal = λ body. ok message;
}

abbrev delivery : Delivery
delivery = record {
  message_id = "msg_1";
  correlation_id = "corr";
  routing_key = "order.created";
  type = "order.created";
  headers = Dict.put Dict.empty "fulfillhub_retry_attempt" (int 1);
  body = "{}";
}

abbrev broker : Broker
broker = record { ack_error = none; nack_error = none; retry_error = none }

abbrev world : World ℕ MemoryInbox
world = record { store = 7; inbox = new_memory_inbox; calls = [] }

readable : decode_delivery (λ body. ok message) delivery ≡ ok message
unfolding decode_delivery fill_from_delivery with_envelope_defaults
readable = refl

unseen :
    (handler : OutboxEvent → Op ℕ (Unit {0}))
    → is_processed (consumer handler) world message ≡ false
unfolding new_memory_inbox Dict.empty Dict.get
unseen handler = refl

redelivery_handled_once_example :
    let first = (process_delivery (consumer counting) broker delivery world).1 in
    let again = (process_delivery (consumer counting) broker delivery first).1 in
    (again.store ≡ 8) × (again.calls ≡ ([] ++ ack ∷ []) ++ ack ∷ [])
redelivery_handled_once_example =
    redelivery_handled_once (consumer counting) counting broker broker delivery delivery message
      message world 8 refl refl readable readable refl (unseen counting) refl

failed_delivery-Released_example :
    Released
      (consumer failing)
      failing
      broker
      delivery
      message
      world
      refl
      refl
      readable
      7
      (process_delivery (consumer failing) broker delivery world).1
failed_delivery-Released_example =
    failed_delivery-Released (consumer failing) failing broker delivery message world refl refl
      readable not_found 7 (unseen failing) refl

process_delivery-Script_example :
    Follows
      (consumer failing)
      delivery
      world
      (process_delivery (consumer failing) broker delivery world)
process_delivery-Script_example =
    process_delivery-Script (consumer failing) broker delivery memory_inbox failing world refl refl
