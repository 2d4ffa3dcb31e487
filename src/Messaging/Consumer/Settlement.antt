-- ===== src/Messaging/Consumer/Settlement.antt =====
-- What `ProcessDelivery` asks of the broker, on every path.
use mathlib.Core.List.{append_assoc}
use fulfillhub_go_commerce_p.Prelude.{
  ◌≡◌, refl, sym, subst, ◌⊎◌, Bool, true, false, List, [], ◌∷◌, ◌++◌, some, inl, inr, Bool-cases,
  Option-cases, arith,
}
use fulfillhub_go_commerce_p.Prelude.Int64.{add, less}
use fulfillhub_go_commerce_p.Commerce.Event.{OutboxEvent}
use fulfillhub_go_commerce_p.Commerce.Result.{Error, Result, Op, ok, err}
use fulfillhub_go_commerce_p.Messaging.Inbox.{Inbox}
use fulfillhub_go_commerce_p.Messaging.Delivery.{Delivery, retry_attempt}
use fulfillhub_go_commerce_p.Messaging.Consumer.{
  BrokerCall, ack, nack, retry, Broker, Consumer, World, process_delivery, should_retry,
  max_retries_of, with_parts, after_decode, after_record, handle, after_handler, after_release,
  retry_or_reject, finish_ack, finish_nack,
}

-- The allowed requests for one delivery: one settlement, with at most one retry publication before
-- it, which is made only below the limit and carries the next attempt number.
pub data Script {S I : Type 0} (c : Consumer S I) (d : Delivery) (calls : List BrokerCall)
    : Type 0 where
  acked : calls ≡ ack ∷ [] → Script c d calls
  nacked : calls ≡ nack ∷ [] → Script c d calls
  retried :
      (e : OutboxEvent) (settled : BrokerCall)
      → (settled ≡ ack) ⊎ (settled ≡ nack)
      → c.retries ≡ true
      → less (retry_attempt d.headers) (max_retries_of c) ≡ true
      → calls ≡ retry e (add (retry_attempt d.headers) 1) ∷ settled ∷ []
      → Script c d calls

module _ {S I : Type 0} where
  abbrev pub Follows : Consumer S I → Delivery → World S I → List Error × World S I → Type 0
  Follows c d w r = (script : List BrokerCall) × Script c d script × (r.1.calls ≡ w.calls ++ script)

module _ {S I : Type 0} (c : Consumer S I) (b : Broker) (d : Delivery) where
  finish_ack-Follows : (es : List Error) (w : World S I) → Follows c d w (finish_ack b es w)
  unfolding finish_ack
  finish_ack-Follows es w = (ack ∷ [], acked refl, refl)

  finish_nack-Follows : (es : List Error) (w : World S I) → Follows c d w (finish_nack b es w)
  unfolding finish_nack
  finish_nack-Follows es w = (nack ∷ [], nacked refl, refl)

  below_limit :
      should_retry c d ≡ true
      → (c.retries ≡ true) × (less (retry_attempt d.headers) (max_retries_of c) ≡ true)
  unfolding should_retry
  below_limit h = ground arith

  retry_or_reject-Follows :
      (event : OutboxEvent) (cause : Error) (w : World S I)
      → Follows c d w (retry_or_reject c b d event cause w)
  unfolding retry_or_reject
  retry_or_reject-Follows event cause w = elim (Bool-cases (should_retry c d)) [
    | inr no_more ↦ rw no_more (finish_nack-Follows (cause ∷ []) w)
    | inl more ↦
        let (on, below) = below_limit more in
        rw more (elim (Option-cases b.retry_error) [
          | inl sent ↦
              rw sent (_, retried event ack (inl refl) on below refl, append_assoc w.calls _ _)
          | inr (e, lost) ↦
              rw lost (_, retried event nack (inr refl) on below refl, append_assoc w.calls _ _)
        ])
  ]

  after_release-Follows :
      (event : OutboxEvent) (cause : Error) (released : Result (Unit {0})) (w : World S I)
      → Follows c d w (after_release c b d event cause released w)
  unfolding after_release
  after_release-Follows event cause (ok _) w = retry_or_reject-Follows event cause w
  after_release-Follows event cause (err e) w = finish_nack-Follows (cause ∷ e ∷ []) w

  after_handler-Follows :
      (inbox : Inbox I) (event : OutboxEvent) (handled : Result (Unit {0})) (w : World S I)
      → Follows c d w (after_handler c b inbox d event handled w)
  unfolding after_handler
  after_handler-Follows inbox event (ok _) w = finish_ack-Follows [] w
  after_handler-Follows inbox event (err cause) w = after_release-Follows event cause _ _

  after_record-Follows :
      (inbox : Inbox I) (handler : OutboxEvent → Op S (Unit {0})) (event : OutboxEvent)
      (recorded : Result Bool) (w : World S I)
      → Follows c d w (after_record c b inbox handler d event recorded w)
  unfolding after_record handle
  after_record-Follows inbox handler event (err e) w = finish_nack-Follows (e ∷ []) w
  after_record-Follows inbox handler event (ok false) w = finish_ack-Follows [] w
  after_record-Follows inbox handler event (ok true) w = after_handler-Follows inbox event _ _

  after_decode-Follows :
      (inbox : Inbox I) (handler : OutboxEvent → Op S (Unit {0})) (r : Result OutboxEvent)
      (w : World S I)
      → Follows c d w (after_decode c b inbox handler d r w)
  unfolding after_decode
  after_decode-Follows inbox handler (err e) w = finish_nack-Follows (e ∷ []) w
  after_decode-Follows inbox handler (ok event) w = after_record-Follows inbox handler event _ _

  -- A consumer with an inbox and a handler settles each delivery exactly once, by an
  -- acknowledgement or a rejection as its last request; before it it publishes at most one retry,
  -- only with a publisher and below the limit of attempts, under the next attempt number.
  pub process_delivery-Script :
      (inbox : Inbox I) (handler : OutboxEvent → Op S (Unit {0})) (w : World S I)
      → c.inbox ≡ some inbox
      → c.handler ≡ some handler
      → Follows c d w (process_delivery c b d w)
  unfolding process_delivery
  process_delivery-Script inbox handler w has_inbox has_handler =
      subst (λ i. Follows c d w (with_parts c b d i c.handler w)) (sym has_inbox)
        (subst (λ h. Follows c d w (with_parts c b d (some inbox) h w)) (sym has_handler)
          (after_decode-Follows inbox handler _ w))
