-- ===== src/Commerce/Event/Message.antt =====
-- `WithEnvelopeDefaults` of internal/commerce/model.go: the part of a message that it does not
-- change, and that it fills in nothing more the second time.
use fulfillhub_go_commerce_p.Prelude.{
  String, ◌≡◌, refl, sym, ◌⊎◌, ap, ◌∙◌, Bool, true, false, if◌then◌else◌, Bool-cases, inl, inr,
  ◌==◌, str_eq,
}
use fulfillhub_go_commerce_p.Json
use fulfillhub_go_commerce_p.Json.{Fields}
use fulfillhub_go_commerce_p.Commerce.Event.{
  EventType, OutboxEvent, with_envelope_defaults, with_default_causation, default_schema_version,
  default_producer, fill_payload, default_event_payload, producer_for_event_type,
}

pub record Message : Type 0 where
  pub message_id : String
  pub event_type : EventType
  pub order_id : String
  pub merchant_id : String
  pub correlation_id : String

abbrev pub message : OutboxEvent → Message
message e = record {
  message_id = e.message_id;
  event_type = e.event_type;
  order_id = e.order_id;
  merchant_id = e.merchant_id;
  correlation_id = e.correlation_id;
}

-- A default filled in or not.
either-message :
    (b : Bool) (e f g : OutboxEvent)
    → message f ≡ message e
    → message g ≡ message e
    → message (if b then f else g) ≡ message e
either-message true e f g hf hg = hf
either-message false e f g hf hg = hg

message-with_default_causation : (e : OutboxEvent) → message (with_default_causation e) ≡ message e
unfolding with_default_causation
message-with_default_causation e = either-message (str_eq e.causation_id "") e _ e refl refl

message-default_schema_version : (e : OutboxEvent) → message (default_schema_version e) ≡ message e
unfolding default_schema_version
message-default_schema_version e = either-message (e.schema_version == 0) e _ e refl refl

message-default_producer : (e : OutboxEvent) → message (default_producer e) ≡ message e
unfolding default_producer
message-default_producer e = either-message (str_eq e.producer "") e _ e refl refl

message-fill_payload : (e : OutboxEvent) → message (fill_payload e) ≡ message e
unfolding fill_payload
message-fill_payload e = either-message (Json.is_empty e.payload) e _ e refl refl

pub message-with_envelope_defaults :
    (e : OutboxEvent) → message (with_envelope_defaults e) ≡ message e
unfolding with_envelope_defaults
message-with_envelope_defaults e =
    let caused = with_default_causation e in
    let versioned = default_schema_version caused in
    message-fill_payload (default_producer versioned)
    ∙ (message-default_producer versioned
        ∙ (message-default_schema_version caused ∙ message-with_default_causation e))

-- What the defaults leave behind, and what makes them idle.
abbrev HasCause : OutboxEvent → Type 0
HasCause e = (str_eq e.causation_id "" ≡ false) ⊎ (e.causation_id ≡ e.message_id)

abbrev HasPayload : OutboxEvent → Type 0
HasPayload e = (Json.is_empty e.payload ≡ false) ⊎ (e.payload ≡ default_event_payload e)

idle_causation :
    (e : OutboxEvent)
    → (str_eq e.causation_id "" ≡ false) ⊎ (e.causation_id ≡ e.message_id)
    → with_default_causation e ≡ e
unfolding with_default_causation
idle_causation e (inl h) = rw h
idle_causation e (inr h) = elim (Bool-cases (str_eq e.causation_id "")) [
  | inl k ↦ rw k (ap (λ c. record e { causation_id = c }) (sym h))
  | inr k ↦ rw k
]

idle_payload :
    (e : OutboxEvent)
    → (Json.is_empty e.payload ≡ false) ⊎ (e.payload ≡ default_event_payload e)
    → fill_payload e ≡ e
unfolding fill_payload
idle_payload e (inl h) = rw h
idle_payload e (inr h) = elim (Bool-cases (Json.is_empty e.payload)) [
  | inl k ↦ rw k (ap (λ p. record e { payload = p }) (sym h))
  | inr k ↦ rw k
]

idle_schema_version :
    (e : OutboxEvent) → (e.schema_version == 0) ≡ false → default_schema_version e ≡ e
unfolding default_schema_version
idle_schema_version e h = rw h

idle_producer : (e : OutboxEvent) → str_eq e.producer "" ≡ false → default_producer e ≡ e
unfolding default_producer
idle_producer e h = rw h

producer-HasText : (t : EventType) → str_eq (producer_for_event_type t) "" ≡ false
unfolding producer_for_event_type
producer-HasText EventType.order_created = refl
producer-HasText EventType.order_cancel_requested = refl
producer-HasText EventType.inventory_reserved = refl
producer-HasText EventType.inventory_rejected = refl
producer-HasText EventType.payment_authorized = refl
producer-HasText EventType.payment_failed = refl
producer-HasText EventType.shipment_created = refl
producer-HasText EventType.shipment_failed = refl
producer-HasText EventType.order_completed = refl
producer-HasText EventType.order_cancelled = refl
producer-HasText EventType.order_manual_review_required = refl
producer-HasText (EventType.other s) = refl

with_default_causation-HasCause : (e : OutboxEvent) → HasCause (with_default_causation e)
unfolding with_default_causation
with_default_causation-HasCause e = elim (Bool-cases (str_eq e.causation_id "")) [
  | inl k ↦ rw k (inr refl)
  | inr k ↦ rw k (inl k)
]

abbrev HasVersion : OutboxEvent → Type 0
HasVersion e = (HasCause e) × ((e.schema_version == 0) ≡ false)

default_schema_version-HasVersion :
    (e : OutboxEvent) → HasCause e → HasVersion (default_schema_version e)
unfolding default_schema_version
default_schema_version-HasVersion e c = elim (Bool-cases (e.schema_version == 0)) [
  | inl k ↦ rw k (c, refl)
  | inr k ↦ rw k (c, k)
]

abbrev HasProducer : OutboxEvent → Type 0
HasProducer e = (HasVersion e) × (str_eq e.producer "" ≡ false)

default_producer-HasProducer : (e : OutboxEvent) → HasVersion e → HasProducer (default_producer e)
unfolding default_producer
default_producer-HasProducer e v = elim (Bool-cases (str_eq e.producer "")) [
  | inl k ↦ rw k (v, producer-HasText e.event_type)
  | inr k ↦ rw k (v, k)
]

fill_payload-HasPayload :
    (e : OutboxEvent) → HasProducer e → (HasProducer (fill_payload e)) × HasPayload (fill_payload e)
unfolding fill_payload default_event_payload
fill_payload-HasPayload e p = elim (Bool-cases (Json.is_empty e.payload)) [
  | inl k ↦ rw k (p, inr refl)
  | inr k ↦ rw k (p, inl k)
]

filled :
    (e : OutboxEvent)
    → (HasProducer (with_envelope_defaults e)) × HasPayload (with_envelope_defaults e)
unfolding with_envelope_defaults
filled e =
    fill_payload-HasPayload (default_producer (default_schema_version (with_default_causation e))) (
      default_producer-HasProducer (default_schema_version (with_default_causation e)) (
        default_schema_version-HasVersion (with_default_causation e)
          (with_default_causation-HasCause e)))

idle : (e : OutboxEvent) → HasProducer e → HasPayload e → with_envelope_defaults e ≡ e
unfolding with_envelope_defaults
idle e ((cause, version), producer) payload =
    ap (λ x. fill_payload (default_producer (default_schema_version x))) (idle_causation e cause)
    ∙ (ap (λ x. fill_payload (default_producer x)) (idle_schema_version e version)
        ∙ (ap fill_payload (idle_producer e producer) ∙ idle_payload e payload))

pub with_envelope_defaults-idempotent :
    (e : OutboxEvent) → with_envelope_defaults (with_envelope_defaults e) ≡ with_envelope_defaults e
with_envelope_defaults-idempotent e = let (p, q) = filled e in idle (with_envelope_defaults e) p q
