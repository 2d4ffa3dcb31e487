-- ===== src/Fulfillment/Saga.antt =====
-- The handlers of internal/fulfillment/handlers.go over the memory store, each on the event that the
-- one before it left in the outbox.
pub mod Forward
pub mod Compensation
pub mod Cancellation
pub mod Adapted
use fulfillhub_go_commerce_p.Prelude.{
  ℕ, String, ◌≡◌, refl, Bool, true, false, List, [], ◌∷◌, ◌++◌, Option, none, some, str_eq, arith,
  ◌∙◌, subst,
}
use fulfillhub_go_commerce_p.Dict
use fulfillhub_go_commerce_p.Dict.{get-put_self}
use fulfillhub_go_commerce_p.Json.{Fields}
use fulfillhub_go_commerce_p.Commerce.Status.{OrderStatus}
use fulfillhub_go_commerce_p.Commerce.Model.{Time, Order, Payment, Shipment}
use fulfillhub_go_commerce_p.Commerce.Event.{
  EventType, OutboxEvent, event_type_eq, with_envelope_defaults,
}
use fulfillhub_go_commerce_p.Commerce.Event.Envelope.{
  SameIdentity, with_envelope_defaults-SameIdentity,
}
use fulfillhub_go_commerce_p.Commerce.Result.{Result, Op, ok}
use fulfillhub_go_commerce_p.Commerce.Store.{MemoryStore}
use fulfillhub_go_commerce_p.Fulfillment.Ports.{Dependencies, memory_orders, memory_projector}
use fulfillhub_go_commerce_p.Fulfillment.Rules.{
  validate_event, validate_event_identity, next_event_at,
}

-- What a handler draws while it handles one delivery.
pub record Draws : Type 0 where
  pub clock : Time
  pub new_id : ℕ → String → String

-- The answers of the providers, each `none` where none is set. They do not touch the store.
pub record Providers : Type 0 where
  pub reserves : Option (OutboxEvent → Result (Unit {0}))
  pub authorizes : Option (OutboxEvent → Result Payment)
  pub ships : Option (OutboxEvent → Result Shipment)

abbrev asked :
    {A : Type 0}
    → Option (OutboxEvent → Result A)
    → Option (OutboxEvent → MemoryStore → Result A × MemoryStore)
asked none = none
asked (some f) = some (λ event s. (f event, s))

abbrev pub worker : Draws → Providers → Dependencies MemoryStore
worker d p = record {
  projector = some memory_projector;
  orders = some memory_orders;
  inventory_reserver = asked p.reserves;
  payment_authorizer = asked p.authorizes;
  shipment_creator = asked p.ships;
  clock = d.clock;
  new_id = d.new_id;
}

-- Identifiers are never empty.
abbrev pub Draw : Draws → Type 0
Draw d = (n : ℕ) (prefix : String) → str_eq (d.new_id n prefix) "" ≡ false

-- What a handling of `event` leaves: the order at a status, and one more event in the outbox, about
-- the same order and fit for the handler that expects `next`.
pub record Leaves (s t : MemoryStore) (event : OutboxEvent) (status : OrderStatus)
    (next : EventType) : Type 0 where
  pub order : Order
  pub found : Dict.get t.orders event.order_id ≡ some order
  pub reached : order.status ≡ status
  pub emitted : OutboxEvent
  pub appended : t.outbox ≡ s.outbox ++ emitted ∷ []
  pub same_order : emitted.order_id ≡ event.order_id
  pub typed : emitted.event_type ≡ next
  pub accepted : validate_event emitted next ≡ none

-- The validation reads the identity only.
validate-SameIdentity :
    (e f : OutboxEvent) (expected : EventType)
    → SameIdentity e f
    → validate_event f expected ≡ validate_event e expected
unfolding validate_event validate_event_identity
validate-SameIdentity e f expected v =
    rw (v.message_id, v.event_type, v.merchant_id, v.order_id, v.correlation_id, v.causation_id)

next_event_at-validate :
    (d : Draws) (p : Providers) (n : ℕ) (event : OutboxEvent) (expected next : EventType)
    → Draw d
    → event_type_eq next next ≡ true
    → validate_event event expected ≡ none
    → validate_event (next_event_at (worker d p) n event next) next ≡ none
unfolding validate_event validate_event_identity next_event_at
next_event_at-validate d p n event expected next drawn same_type h =
    ground (arith, drawn n "msg", same_type)

-- The event that the store appends for a handler.
abbrev pub emitted_event : Draws → Providers → ℕ → OutboxEvent → EventType → Fields → OutboxEvent
emitted_event d p n event next payload =
    with_envelope_defaults (record (next_event_at (worker d p) n event next) { payload = payload })

module _ (d : Draws) (p : Providers) (n : ℕ) (event : OutboxEvent) (expected next : EventType)
    (payload : Fields) (drawn : Draw d) (valid : validate_event event expected ≡ none) where
  caused : str_eq (next_event_at (worker d p) n event next).causation_id "" ≡ false
  unfolding validate_event validate_event_identity next_event_at
  caused = ground arith

  emitted_event-SameIdentity :
      SameIdentity
        (record (next_event_at (worker d p) n event next) { payload = payload })
        (emitted_event d p n event next payload)
  emitted_event-SameIdentity = with_envelope_defaults-SameIdentity _ caused

  pub emitted_event-order_id : (emitted_event d p n event next payload).order_id ≡ event.order_id
  unfolding next_event_at
  emitted_event-order_id = emitted_event-SameIdentity.order_id

  pub emitted_event-validate :
      event_type_eq next next ≡ true
      → validate_event (emitted_event d p n event next payload) next ≡ none
  unfolding next_event_at validate_event validate_event_identity
  emitted_event-validate same_type =
      validate-SameIdentity _ _ next emitted_event-SameIdentity
      ∙ next_event_at-validate d p n event expected next drawn same_type valid

  pub advanced :
      (s t : MemoryStore) (order : Order)
      → event_type_eq next next ≡ true
      → t.orders ≡ Dict.put s.orders event.order_id order
      → t.outbox ≡ s.outbox ++ emitted_event d p n event next payload ∷ []
      → Leaves s t event order.status next
  unfolding next_event_at
  advanced s t order same_type orders outbox = record {
    order = order;
    found = rw orders (get-put_self s.orders event.order_id order);
    reached = refl;
    emitted = emitted_event d p n event next payload;
    appended = outbox;
    same_order = emitted_event-order_id;
    typed = emitted_event-SameIdentity.event_type;
    accepted = emitted_event-validate same_type;
  }

pub validate-identity :
    (e : OutboxEvent) (expected : EventType)
    → validate_event e expected ≡ none
    → validate_event_identity e ≡ none
unfolding validate_event
validate-identity e expected h = ground arith

-- The order at a status.
abbrev pub IsAt : MemoryStore → String → OrderStatus → Type 0
IsAt t id status = (o : Order) × (Dict.get t.orders id ≡ some o) × (o.status ≡ status)

module _ {s t : MemoryStore} {event : OutboxEvent} {status : OrderStatus} {next : EventType}
    (l : Leaves s t event status next) where
  -- The order that the next handler finds.
  pub passed : Dict.get t.orders l.emitted.order_id ≡ some l.order
  passed = rw (l.same_order) (l.found)

  pub Leaves-IsAt : (id : String) → event.order_id ≡ id → IsAt t id status
  Leaves-IsAt id same =
      (l.order, subst (λ k. Dict.get t.orders k ≡ some l.order) same l.found, l.reached)

-- One delivery: the handler succeeds on `e` and appends `e'` to the outbox.
abbrev pub Handles :
    (OutboxEvent → Op MemoryStore (Unit {0}))
    → OutboxEvent
    → MemoryStore
    → OutboxEvent
    → MemoryStore
    → Type 0
Handles handler e s e' t = (handler e s ≡ (ok tt, t)) × (t.outbox ≡ s.outbox ++ e' ∷ [])
