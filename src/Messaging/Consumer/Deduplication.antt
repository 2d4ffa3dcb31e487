-- ===== src/Messaging/Consumer/Deduplication.antt =====
-- The consumer over a `MemoryInbox`: a handled message is not handled again, and a failed one can be.
use fulfillhub_go_commerce_p.Prelude.{
  String, ◌≡◌, refl, Bool, true, false, [], ◌∷◌, ◌++◌, none, some, arith, str_eq, if◌then◌else◌,
}
use fulfillhub_go_commerce_p.Dict
use fulfillhub_go_commerce_p.Dict.{Dict, get-put, get-remove, get-put_self}
use fulfillhub_go_commerce_p.Commerce.Event.{OutboxEvent}
use fulfillhub_go_commerce_p.Commerce.Result.{Error, Op, ok, err}
use fulfillhub_go_commerce_p.Messaging.Inbox.{MemoryInbox, memory_inbox, inbox_key}
use fulfillhub_go_commerce_p.Messaging.Delivery.{Delivery, decode_delivery}
use fulfillhub_go_commerce_p.Messaging.Consumer.{
  ack, Broker, Consumer, World, process_delivery, name_of, errors_of, after_decode, after_record,
  handle, after_handler, retry_or_reject, finish_ack, finish_nack,
}

-- The message's key for the consumer.
abbrev pub key_of : {S I : Type 0} → Consumer S I → OutboxEvent → String
key_of c event = inbox_key (name_of c) event

abbrev pub is_processed :
    {S : Type 0} → Consumer S MemoryInbox → World S MemoryInbox → OutboxEvent → Bool
is_processed c w event = Dict.has w.inbox.processed (key_of c event)

module _ {S : Type 0} (c : Consumer S MemoryInbox) (handler : OutboxEvent → Op S (Unit {0}))
    (b : Broker) (d : Delivery) (event : OutboxEvent) (w : World S MemoryInbox)
    (has_inbox : c.inbox ≡ some memory_inbox) (has_handler : c.handler ≡ some handler)
    (readable : decode_delivery c.unmarshal d ≡ ok event) where
  unwrapped : process_delivery c b d w ≡ after_decode c b memory_inbox handler d (ok event) w
  unfolding process_delivery
  unwrapped = cc (has_inbox, has_handler, readable)

  pub duplicate_acked :
      is_processed c w event ≡ true
      → process_delivery c b d w ≡ (errors_of b.ack_error, record w { calls = w.calls ++ ack ∷ [] })
  unfolding after_decode memory_inbox after_record finish_ack
  duplicate_acked seen = rw unwrapped (rw seen)

  pub handled_acked :
      (s : S)
      → is_processed c w event ≡ false
      → handler event w.store ≡ (ok tt, s)
      → process_delivery c b d w ≡ (
        errors_of b.ack_error,
        record {
          store = s;
          inbox = record { processed = Dict.put w.inbox.processed (key_of c event) tt };
          calls = w.calls ++ ack ∷ [];
        },
      )
  unfolding after_decode memory_inbox after_record finish_ack handle after_handler
  handled_acked s new handled = rw unwrapped (rw new (rw handled))

  -- What a failed handling leaves of the store and of the inbox, whether it is retried or rejected.
  abbrev pub Released : S → World S MemoryInbox → Type 0
  Released s v =
      (v.store ≡ s)
      × ((k : String)
          → Dict.get v.inbox.processed k
            ≡ (if str_eq (key_of c event) k then none else Dict.get w.inbox.processed k))

  retry_or_reject_keeps :
      (cause : Error) (v : World S MemoryInbox)
      → ((retry_or_reject c b d event cause v).1.store ≡ v.store)
        × ((retry_or_reject c b d event cause v).1.inbox ≡ v.inbox)
  unfolding retry_or_reject finish_ack finish_nack
  retry_or_reject_keeps cause v = ground arith

  released_world : S → World S MemoryInbox
  released_world s = record {
    store = s;
    inbox = record {
      processed = Dict.remove (Dict.put w.inbox.processed (key_of c event) tt) (key_of c event);
    };
    calls = w.calls;
  }

  fails_to :
      (cause : Error) (s : S)
      → is_processed c w event ≡ false
      → handler event w.store ≡ (err cause, s)
      → process_delivery c b d w ≡ retry_or_reject c b d event cause (released_world s)
  unfolding after_decode memory_inbox after_record handle after_handler released_world
  fails_to cause s new failed = rw unwrapped (rw new (rw failed))

  -- When the handler of a consumer with a memory inbox fails on a readable message that is not
  -- recorded, the message is not recorded afterwards
  -- either, so that a retried or replayed delivery is handled again; the entries of all other
  -- messages are as before, and the store is as the handler left it.
  pub failed_delivery-Released :
      (cause : Error) (s : S)
      → is_processed c w event ≡ false
      → handler event w.store ≡ (err cause, s)
      → Released s (process_delivery c b d w).1
  unfolding released_world
  failed_delivery-Released cause s new failed =
      let (store, inbox) = retry_or_reject_keeps cause (released_world s) in
      rw (fails_to cause s new failed) (
        store,
        λ k. rw inbox (
            ground (
              arith,
              get-remove (Dict.put w.inbox.processed (key_of c event) tt) (key_of c event) k,
              get-put w.inbox.processed (key_of c event) k tt,
            )),
      )

-- The world after a message was handled.
abbrev handled_world :
    {S : Type 0}
    → Consumer S MemoryInbox
    → OutboxEvent
    → World S MemoryInbox
    → S
    → World S MemoryInbox
handled_world c event w s = record {
  store = s;
  inbox = record { processed = Dict.put w.inbox.processed (key_of c event) tt };
  calls = w.calls ++ ack ∷ [];
}

same_message_processed :
    {S : Type 0} (c : Consumer S MemoryInbox) (event event' : OutboxEvent) (w : World S MemoryInbox)
    (s : S)
    → event'.message_id ≡ event.message_id
    → is_processed c (handled_world c event w s) event' ≡ true
unfolding inbox_key
same_message_processed c event event' w s same =
    ground (arith, same, get-put_self w.inbox.processed (key_of c event) tt)

-- Two readable deliveries with one message identifier, to a consumer with a handler and a memory inbox
-- that has not recorded it: if the handler succeeds on the first, the second is not handled, so the
-- store is that of the first handling, and the broker gets one acknowledgement for each and nothing
-- else.
pub redelivery_handled_once :
    {S : Type 0} (c : Consumer S MemoryInbox) (handler : OutboxEvent → Op S (Unit {0}))
    (b b' : Broker) (d d' : Delivery) (event event' : OutboxEvent) (w : World S MemoryInbox) (s : S)
    → c.inbox ≡ some memory_inbox
    → c.handler ≡ some handler
    → decode_delivery c.unmarshal d ≡ ok event
    → decode_delivery c.unmarshal d' ≡ ok event'
    → event'.message_id ≡ event.message_id
    → is_processed c w event ≡ false
    → handler event w.store ≡ (ok tt, s)
    → let again = (process_delivery c b' d' (process_delivery c b d w).1).1 in
      (again.store ≡ s) × (again.calls ≡ (w.calls ++ ack ∷ []) ++ ack ∷ [])
redelivery_handled_once c handler b b' d d' event event' w s has_inbox has_handler readable
      readable' same new handled =
    rw (handled_acked c handler b d event w has_inbox has_handler readable s new handled) (
      rw
        (duplicate_acked c handler b' d' event' (handled_world c event w s) has_inbox has_handler
          readable' (same_message_processed c event event' w s same))
        (refl, refl))
