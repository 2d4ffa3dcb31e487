-- ===== src/Commerce/Event/Envelope.antt =====
-- `WithEnvelopeDefaults` of internal/commerce/model.go: what it keeps, and that once is enough.
use fulfillhub_go_commerce_p.Prelude.{◌≡◌, refl, ◌∙◌, false, str_eq, Bool-cases, inl, inr, ◌==◌}
use fulfillhub_go_commerce_p.Json
use fulfillhub_go_commerce_p.Commerce.Event.{
  OutboxEvent, with_envelope_defaults, with_default_causation, default_schema_version,
  default_producer, fill_payload,
}

-- The fields that tell which message it is, and about what.
pub record SameIdentity (e f : OutboxEvent) : Type 0 where
  pub message_id : f.message_id ≡ e.message_id
  pub event_type : f.event_type ≡ e.event_type
  pub merchant_id : f.merchant_id ≡ e.merchant_id
  pub order_id : f.order_id ≡ e.order_id
  pub correlation_id : f.correlation_id ≡ e.correlation_id
  pub causation_id : f.causation_id ≡ e.causation_id

SameIdentity-refl : (e : OutboxEvent) → SameIdentity e e
SameIdentity-refl e = record {
  message_id = refl;
  event_type = refl;
  merchant_id = refl;
  order_id = refl;
  correlation_id = refl;
  causation_id = refl;
}

SameIdentity-trans : {e f g : OutboxEvent} → SameIdentity e f → SameIdentity f g → SameIdentity e g
SameIdentity-trans a b = record {
  message_id = b.message_id ∙ a.message_id;
  event_type = b.event_type ∙ a.event_type;
  merchant_id = b.merchant_id ∙ a.merchant_id;
  order_id = b.order_id ∙ a.order_id;
  correlation_id = b.correlation_id ∙ a.correlation_id;
  causation_id = b.causation_id ∙ a.causation_id;
}

default_schema_version-SameIdentity : (e : OutboxEvent) → SameIdentity e (default_schema_version e)
unfolding default_schema_version
default_schema_version-SameIdentity e = elim (Bool-cases (e.schema_version == 0)) [
  | inl h ↦ rw h (record {
    message_id = refl;
    event_type = refl;
    merchant_id = refl;
    order_id = refl;
    correlation_id = refl;
    causation_id = refl;
  })
  | inr h ↦ rw h (SameIdentity-refl e)
]

default_producer-SameIdentity : (e : OutboxEvent) → SameIdentity e (default_producer e)
unfolding default_producer
default_producer-SameIdentity e = elim (Bool-cases (str_eq e.producer "")) [
  | inl h ↦ rw h (record {
    message_id = refl;
    event_type = refl;
    merchant_id = refl;
    order_id = refl;
    correlation_id = refl;
    causation_id = refl;
  })
  | inr h ↦ rw h (SameIdentity-refl e)
]

fill_payload-SameIdentity : (e : OutboxEvent) → SameIdentity e (fill_payload e)
unfolding fill_payload
fill_payload-SameIdentity e = elim (Bool-cases (Json.is_empty e.payload)) [
  | inl h ↦ rw h (record {
    message_id = refl;
    event_type = refl;
    merchant_id = refl;
    order_id = refl;
    correlation_id = refl;
    causation_id = refl;
  })
  | inr h ↦ rw h (SameIdentity-refl e)
]

caused_unchanged :
    (e : OutboxEvent) → str_eq e.causation_id "" ≡ false → with_default_causation e ≡ e
unfolding with_default_causation
caused_unchanged e h = rw h

-- With a causation set, the defaults keep the identity of the message.
pub with_envelope_defaults-SameIdentity :
    (e : OutboxEvent) → str_eq e.causation_id "" ≡ false → SameIdentity e (with_envelope_defaults e)
unfolding with_envelope_defaults
with_envelope_defaults-SameIdentity e h = rw (caused_unchanged e h) (
    SameIdentity-trans (default_schema_version-SameIdentity e) (
      SameIdentity-trans (default_producer-SameIdentity (default_schema_version e))
        (fill_payload-SameIdentity (default_producer (default_schema_version e)))))
