-- ===== src/Commerce/Store/History.antt =====
-- The methods of the memory store as calls, each atomic under the mutex, and a history of calls in
-- the order in which they took the lock.
pub mod Orders
pub mod Logs
pub mod Indexes
pub mod Relay
pub mod Changes
use fulfillhub_go_commerce_p.Prelude.{
  ℕ, String, ◌≡◌, refl, ap, arith, Bool, List, [], ◌∷◌, Option, none, some,
}
use fulfillhub_go_commerce_p.Dict
use fulfillhub_go_commerce_p.Commerce.Status.{OrderStatus}
use fulfillhub_go_commerce_p.Commerce.Model.{Time, Order, Payment, Shipment}
use fulfillhub_go_commerce_p.Commerce.Event.{OutboxEvent, AuditLog}
use fulfillhub_go_commerce_p.Commerce.Result.{Error, Result, Op, ok, err, return, ◌>>=◌, modify}
use fulfillhub_go_commerce_p.Commerce.Store.{MemoryStore, insert_order, update_order_status}
use fulfillhub_go_commerce_p.Commerce.Store.Projection.{
  record_inventory_reserved, record_inventory_rejected, record_payment_authorized,
  record_payment_failed, record_shipment_created, record_shipment_failed, record_order_cancelled,
  record_notification_queued, record_compensation,
}
use fulfillhub_go_commerce_p.Commerce.Store.Outbox.{pending_outbox_events, mark_outbox_published}
use fulfillhub_go_commerce_p.Commerce.Store.Move.{IsNew, Outcome, refused, done, Move, stay, relay}
use fulfillhub_go_commerce_p.Commerce.Store.Outcome.{
  record_inventory_reserved-Outcome, record_inventory_rejected-Outcome,
  record_payment_authorized-Outcome, record_payment_failed-Outcome, record_shipment_created-Outcome,
  record_shipment_failed-Outcome, record_order_cancelled-Outcome,
  record_notification_queued-Outcome, record_compensation-Outcome, update_order_status-Outcome,
  insert_order-Outcome,
}

pub data Call : Type 0 where
  inserts : String → String → Order → OutboxEvent → AuditLog → Call
  updates : String → OrderStatus → Time → OutboxEvent → AuditLog → Call
  inventory_reserves inventory_rejects : OutboxEvent → OutboxEvent → AuditLog → Call
  payment_authorizes : OutboxEvent → OutboxEvent → Payment → AuditLog → Call
  payment_fails : OutboxEvent → OutboxEvent → AuditLog → Call
  shipment_creates : OutboxEvent → OutboxEvent → Shipment → AuditLog → Call
  shipment_fails order_cancels : OutboxEvent → OutboxEvent → AuditLog → Call
  notification_queues : OutboxEvent → AuditLog → Call
  compensates : OutboxEvent → OrderStatus → AuditLog → Call
  claims : Time → ℕ → Call
  publishes : String → Time → Call

-- The result of a call is forgotten, its failure is not.
abbrev pub forget : {A : Type 0} → Result A → Result (Unit {0})
forget (ok a) = ok tt
forget (err e) = err e

abbrev discard : {A : Type 0} → Op MemoryStore A → Op MemoryStore (Unit {0})
discard m s = let (r, t) = m s in (forget r, t)

abbrev claim : Time → ℕ → Op MemoryStore (Unit {0})
claim now limit s = (ok tt, (pending_outbox_events now limit s).1)

unfoldable pub apply : Call → Op MemoryStore (Unit {0})
apply (inserts merchant_id key order event audit) =
    discard (insert_order merchant_id key order event audit)
apply (updates id status now event audit) = discard (update_order_status id status now event audit)
apply (inventory_reserves source next audit) = record_inventory_reserved source next audit
apply (inventory_rejects source next audit) = record_inventory_rejected source next audit
apply (payment_authorizes source next payment audit) =
    record_payment_authorized source next payment audit
apply (payment_fails source next audit) = record_payment_failed source next audit
apply (shipment_creates source next shipment audit) =
    record_shipment_created source next shipment audit
apply (shipment_fails source next audit) = record_shipment_failed source next audit
apply (order_cancels source next audit) = record_order_cancelled source next audit
apply (notification_queues source audit) = record_notification_queued source audit
apply (compensates source status audit) = record_compensation source status audit
apply (claims now limit) = claim now limit
apply (publishes message_id at) = modify (mark_outbox_published message_id at)

unfoldable pub step : MemoryStore → Call → MemoryStore
step s c = (apply c s).1

unfoldable pub run : MemoryStore → List Call → MemoryStore
run s [] = s
run s (c ∷ cs) = run (step s c) cs

abbrev pub IsDrawn : MemoryStore → Call → Type 0
IsDrawn s (inserts merchant_id key order event audit) = IsNew s merchant_id order
IsDrawn s _ = Unit {0}

abbrev pub AllDrawn : MemoryStore → List Call → Type 0
AllDrawn s [] = Unit {0}
AllDrawn s (c ∷ cs) = IsDrawn s c × AllDrawn (step s c) cs

discard-Outcome :
    {A D : Type 0} (m : Op MemoryStore A) (s : MemoryStore)
    → Outcome D s (m s)
    → Outcome D s (discard m s)
discard-Outcome m s (refused e h) = refused e (ground arith)
discard-Outcome m s (done a h v) = done tt (ground arith) v

-- The two methods that write the relay's maps.
abbrev pub IsRelay : Call → Type 0
IsRelay (claims now limit) = Unit {0}
IsRelay (publishes message_id at) = Unit {0}
IsRelay _ = ⊥

pub call-Outcome :
    {D : Type 0} (c : Call) (s : MemoryStore)
    → (D → IsDrawn s c)
    → (IsRelay c → D)
    → Outcome D s (apply c s)
unfolding apply pending_outbox_events mark_outbox_published
call-Outcome (inserts merchant_id key order event audit) s drawn relays =
    discard-Outcome (insert_order merchant_id key order event audit) s
      (insert_order-Outcome merchant_id key order event audit s drawn)
call-Outcome (updates id status now event audit) s drawn relays =
    discard-Outcome (update_order_status id status now event audit) s
      (update_order_status-Outcome id status now event audit s)
call-Outcome (inventory_reserves source next audit) s drawn relays =
    record_inventory_reserved-Outcome source next audit s
call-Outcome (inventory_rejects source next audit) s drawn relays =
    record_inventory_rejected-Outcome source next audit s
call-Outcome (payment_authorizes source next payment audit) s drawn relays =
    record_payment_authorized-Outcome source next payment audit s
call-Outcome (payment_fails source next audit) s drawn relays =
    record_payment_failed-Outcome source next audit s
call-Outcome (shipment_creates source next shipment audit) s drawn relays =
    record_shipment_created-Outcome source next shipment audit s
call-Outcome (shipment_fails source next audit) s drawn relays =
    record_shipment_failed-Outcome source next audit s
call-Outcome (order_cancels source next audit) s drawn relays =
    record_order_cancelled-Outcome source next audit s
call-Outcome (notification_queues source audit) s drawn relays =
    record_notification_queued-Outcome source audit s
call-Outcome (compensates source status audit) s drawn relays =
    record_compensation-Outcome source status audit s
call-Outcome (claims now limit) s drawn relays = done tt refl (relay (relays tt) _ _ refl)
call-Outcome (publishes message_id at) s drawn relays = done tt refl (relay (relays tt) _ _ refl)

relay-IsDrawn : (s : MemoryStore) (c : Call) → IsRelay c → IsDrawn s c
relay-IsDrawn s (inserts merchant_id key order event audit) r = elim r [ ]
relay-IsDrawn s _ r = tt

pub apply-Outcome : (c : Call) (s : MemoryStore) → Outcome (IsDrawn s c) s (apply c s)
apply-Outcome c s = call-Outcome c s (λ d. d) (relay-IsDrawn s c)

unchanged_if_failed :
    {A D : Type 0} {s : MemoryStore} (r : Result A × MemoryStore) (e : Error)
    → Outcome D s r
    → r.0 ≡ err e
    → r.1 ≡ s
unchanged_if_failed {A} r e (refused e' h) f = ap (λ (q : Result A × MemoryStore). q.1) h
unchanged_if_failed r e (done a h v) f = cc

-- A call that fails leaves the store as it was.
pub failed_call_unchanged :
    (c : Call) (s : MemoryStore) (e : Error) → (apply c s).0 ≡ err e → step s c ≡ s
unfolding step
failed_call_unchanged c s e h = unchanged_if_failed (apply c s) e (apply-Outcome c s) h

Outcome-Move :
    {A D : Type 0} {s : MemoryStore} (r : Result A × MemoryStore) → Outcome D s r → Move D s r.1
Outcome-Move {A} r (refused e h) = stay (ap (λ (q : Result A × MemoryStore). q.1) h)
Outcome-Move r (done a h m) = m

pub step-Move : (s : MemoryStore) (c : Call) → Move (IsDrawn s c) s (step s c)
unfolding step
step-Move s c = Outcome-Move (apply c s) (apply-Outcome c s)
