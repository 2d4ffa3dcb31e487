-- ===== src/Messaging/Consumer.antt =====
-- internal/messaging/consumer.go: `Consumer.ProcessDelivery`. The store behind the handler and the
-- inbox are two states; what is sent to the broker is a log. Tracing is left out.
pub mod Settlement
pub mod Deduplication
use fulfillhub_go_commerce_p.Prelude.{
  ℕ, String, Bool, true, false, List, [], ◌∷◌, ◌++◌, Option, none, some, str_eq, if◌then◌else◌,
  ◌&&◌, not, is_some,
}
use fulfillhub_go_commerce_p.Prelude.Int64.{Int64, add, less}
use fulfillhub_go_commerce_p.Commerce.Event.{OutboxEvent}
use fulfillhub_go_commerce_p.Commerce.Result.{Error, Result, Op, ok, err, failure}
use fulfillhub_go_commerce_p.Messaging.Topology.{default_max_retry_attempts}
use fulfillhub_go_commerce_p.Messaging.Inbox.{Inbox}
use fulfillhub_go_commerce_p.Messaging.Delivery.{Delivery, Decoder, retry_attempt, decode_delivery}

-- What the consumer asks of the broker for one delivery.
pub data BrokerCall : Type 0 where
  ack nack : BrokerCall
  retry : OutboxEvent → Int64 → BrokerCall

-- The broker's answers: the error of an acknowledgement, of a rejection and of a retry publication.
pub record Broker : Type 0 where
  pub ack_error : Option Error
  pub nack_error : Option Error
  pub retry_error : Option Error

-- `retries` says whether a `RetryPublisher` is set.
pub record Consumer (S I : Type 0) : Type 0 where
  pub queue : String
  pub consumer_name : String
  pub inbox : Option (Inbox I)
  pub handler : Option (OutboxEvent → Op S (Unit {0}))
  pub retries : Bool
  pub max_retries : Int64
  pub unmarshal : Decoder

pub record World (S I : Type 0) : Type 0 where
  pub store : S
  pub inbox : I
  pub calls : List BrokerCall

abbrev pub errors_of : Option Error → List Error
errors_of none = []
errors_of (some e) = e ∷ []

-- The joined errors of `ProcessDelivery`, of which none stands for nil, and the world after it.
abbrev pub Process : Type 0 → Type 0 → Type 0
Process S I = World S I → List Error × World S I

-- `releaseInbox`: an inbox that cannot release has nothing to do.
release_inbox : {I : Type 0} → Inbox I → String → OutboxEvent → Op I (Unit {0})
release_inbox inbox name event i = elim inbox.release [
  | none ↦ (ok tt, i)
  | some release ↦ release name event i
]

module _ {S I : Type 0} where
  unfoldable pub name_of : Consumer S I → String
  name_of c = if str_eq c.consumer_name "" then c.queue else c.consumer_name

  unfoldable pub max_retries_of : Consumer S I → Int64
  max_retries_of c = if less 0 c.max_retries then c.max_retries else default_max_retry_attempts

  unfoldable pub should_retry : Consumer S I → Delivery → Bool
  unfolding max_retries_of
  should_retry c delivery = c.retries && less (retry_attempt delivery.headers) (max_retries_of c)

  abbrev send : BrokerCall → World S I → World S I
  send call w = record w { calls = w.calls ++ call ∷ [] }

  -- `errors.Join(first…, ackDelivery(delivery))`
  finish_ack : Broker → List Error → Process S I
  finish_ack b errors w = (errors ++ errors_of b.ack_error, send ack w)

  finish_nack : Broker → List Error → Process S I
  finish_nack b errors w = (errors ++ errors_of b.nack_error, send nack w)

  after_retry : Broker → Error → Option Error → Process S I
  unfolding finish_ack finish_nack
  after_retry b cause none w = finish_ack b (cause ∷ []) w
  after_retry b cause (some e) w = finish_nack b (cause ∷ e ∷ []) w

  retry_or_reject : Consumer S I → Broker → Delivery → OutboxEvent → Error → Process S I
  unfolding after_retry finish_nack should_retry
  retry_or_reject c b delivery event cause w =
      if should_retry c delivery
      then after_retry b cause b.retry_error
          (send (retry event (add (retry_attempt delivery.headers) 1)) w)
      else finish_nack b (cause ∷ []) w

  after_release :
      Consumer S I → Broker → Delivery → OutboxEvent → Error → Result (Unit {0}) → Process S I
  unfolding retry_or_reject finish_nack
  after_release c b delivery event cause (ok _) w = retry_or_reject c b delivery event cause w
  after_release c b delivery event cause (err e) w = finish_nack b (cause ∷ e ∷ []) w

  after_handler :
      Consumer S I → Broker → Inbox I → Delivery → OutboxEvent → Result (Unit {0}) → Process S I
  unfolding after_release release_inbox finish_ack
  after_handler c b inbox delivery event (ok _) w = finish_ack b [] w
  after_handler c b inbox delivery event (err cause) w =
      let (released, i) = release_inbox inbox (name_of c) event w.inbox in
      after_release c b delivery event cause released (record w { inbox = i })

  handle :
      Consumer S I
      → Broker
      → Inbox I
      → (OutboxEvent → Op S (Unit {0}))
      → Delivery
      → OutboxEvent
      → Process S I
  unfolding after_handler
  handle c b inbox handler delivery event w =
      let (handled, s) = handler event w.store in
      after_handler c b inbox delivery event handled (record w { store = s })

  after_record :
      Consumer S I
      → Broker
      → Inbox I
      → (OutboxEvent → Op S (Unit {0}))
      → Delivery
      → OutboxEvent
      → Result Bool
      → Process S I
  unfolding handle finish_ack finish_nack
  after_record c b inbox handler delivery event (err e) w = finish_nack b (e ∷ []) w
  after_record c b inbox handler delivery event (ok false) w = finish_ack b [] w
  after_record c b inbox handler delivery event (ok true) w =
      handle c b inbox handler delivery event w

  after_decode :
      Consumer S I
      → Broker
      → Inbox I
      → (OutboxEvent → Op S (Unit {0}))
      → Delivery
      → Result OutboxEvent
      → Process S I
  unfolding after_record finish_nack
  after_decode c b inbox handler delivery (err e) w = finish_nack b (e ∷ []) w
  after_decode c b inbox handler delivery (ok event) w =
      let (recorded, i) = inbox.record_message (name_of c) event w.inbox in
      after_record c b inbox handler delivery event recorded (record w { inbox = i })

  with_parts :
      Consumer S I
      → Broker
      → Delivery
      → Option (Inbox I)
      → Option (OutboxEvent → Op S (Unit {0}))
      → Process S I
  unfolding after_decode
  with_parts c b delivery none handler w = (failure "consumer inbox is required" ∷ [], w)
  with_parts c b delivery (some inbox) none w = (failure "consumer handler is required" ∷ [], w)
  with_parts c b delivery (some inbox) (some handler) w =
      after_decode c b inbox handler delivery (decode_delivery c.unmarshal delivery) w

  unfoldable pub process_delivery : Consumer S I → Broker → Delivery → Process S I
  unfolding with_parts
  process_delivery c b delivery w = with_parts c b delivery c.inbox c.handler w
