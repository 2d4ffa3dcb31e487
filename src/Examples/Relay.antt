-- ===== src/Examples/Relay.antt =====
-- A relay whose publisher refuses the second of two events, and a limiter with one call per window.
use fulfillhub_go_commerce_p.Prelude.{
  true, ◌+◌, ◌≤◌, ◌≡◌, ◌≢◌, refl, String, [], ◌∷◌, List, All, Option, none, some, str_eq,
  if◌then◌else◌, arith,
}
use fulfillhub_go_commerce_p.Dict
use fulfillhub_go_commerce_p.Dict.{get-empty}
use fulfillhub_go_commerce_p.Commerce.Model.{Time}
use fulfillhub_go_commerce_p.Commerce.Event.{EventType, OutboxEvent}
use fulfillhub_go_commerce_p.Commerce.Result.{Error, failure}
use fulfillhub_go_commerce_p.Commerce.Store.{MemoryStore, new_memory_store}
use fulfillhub_go_commerce_p.Commerce.Store.Outbox.{pending_outbox_events, mark_outbox_published}
use fulfillhub_go_commerce_p.Commerce.Store.History.Relay.{published_not_pending}
use fulfillhub_go_commerce_p.Commerce.Store.History.{run, claims}
use fulfillhub_go_commerce_p.Messaging.Relay.{run_once}
use fulfillhub_go_commerce_p.Messaging.Relay.Once.{Published, relay, run_once-Published}
use fulfillhub_go_commerce_p.Ratelimit.{MemoryLimiter, new_memory_limiter, bucket_of, is_over}
use fulfillhub_go_commerce_p.Ratelimit.Window.{grants, window_bounded}
use fulfillhub_go_commerce_p.Examples.Data.{event}

abbrev two_events : MemoryStore
two_events = record new_memory_store {
  outbox = event "msg_1" EventType.order_created ∷ event "msg_2" EventType.inventory_reserved ∷ [];
}

abbrev refuses_second : OutboxEvent → Option Error
refuses_second e = if str_eq e.message_id "msg_2" then some (failure "closed") else none

run_once-Published_example :
    Published
      (pending_outbox_events 200 0 two_events).0
      []
      0
      refuses_second
      (run_once (relay 200 (λ n. 201 + n) refuses_second) 0 two_events [])
run_once-Published_example = run_once-Published 200 (λ n. 201 + n) refuses_second 0 two_events []

published_not_pending_example :
    All
      (λ e. e.message_id ≢ "msg_1")
      (pending_outbox_events 300 5
        (run (mark_outbox_published "msg_1" 210 two_events) (claims 220 1 ∷ []))).0
published_not_pending_example =
    published_not_pending "msg_1" 210 300 5 two_events (claims 220 1 ∷ [])

abbrev limiter : MemoryLimiter
limiter = new_memory_limiter 1 60

abbrev calls : List (Time × String)
calls = (110, "a") ∷ (120, "b") ∷ (130, "a") ∷ []

first_opens : is_over (bucket_of limiter "a") 100 ≡ true
unfolding new_memory_limiter Dict.get Dict.empty
first_opens = refl

window_bounded_example : grants "a" ((100, "a") ∷ calls) limiter ≤ limiter.limit
unfolding new_memory_limiter
window_bounded_example =
    window_bounded "a" 100 calls limiter first_opens (omega arith, (omega arith, (omega arith, tt)))
      (omega arith) (omega arith)
