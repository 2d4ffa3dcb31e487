-- ===== src/Commerce/Event.antt =====
-- internal/commerce/model.go: the event envelope, its defaults and its payloads, and the audit
-- record of internal/commerce/store.go.
-- An event type is a Go string: `other` stands for every text that is none of the known types.
pub mod Envelope
pub mod Message
use fulfillhub_go_commerce_p.Prelude.{
  ℕ, String, Bool, true, false, str_eq, ◌==◌, if◌then◌else◌, get_or,
}
use fulfillhub_go_commerce_p.Prelude.Text.{trim_space}
use fulfillhub_go_commerce_p.Dict.{Dict}
use fulfillhub_go_commerce_p.Dict
use fulfillhub_go_commerce_p.Json.{Fields, Value, end, field, text, timestamp, object}
use fulfillhub_go_commerce_p.Json
use fulfillhub_go_commerce_p.Commerce.Status.{OrderStatus, status_text}
use fulfillhub_go_commerce_p.Commerce.Model.{Time}

pub data EventType : Type 0 where
  order_created order_cancel_requested inventory_reserved inventory_rejected : EventType
  payment_authorized payment_failed shipment_created shipment_failed : EventType
  order_completed order_cancelled order_manual_review_required : EventType
  other : String → EventType

unfoldable pub event_type_text : EventType → String
event_type_text order_created = "order.created"
event_type_text order_cancel_requested = "order.cancel_requested"
event_type_text inventory_reserved = "inventory.reserved"
event_type_text inventory_rejected = "inventory.rejected"
event_type_text payment_authorized = "payment.authorized"
event_type_text payment_failed = "payment.failed"
event_type_text shipment_created = "shipment.created"
event_type_text shipment_failed = "shipment.failed"
event_type_text order_completed = "order.completed"
event_type_text order_cancelled = "order.cancelled"
event_type_text order_manual_review_required = "order.manual_review_required"
event_type_text (other s) = s

-- `==` of two event types.
unfoldable pub event_type_eq : EventType → EventType → Bool
event_type_eq order_created order_created = true
event_type_eq order_cancel_requested order_cancel_requested = true
event_type_eq inventory_reserved inventory_reserved = true
event_type_eq inventory_rejected inventory_rejected = true
event_type_eq payment_authorized payment_authorized = true
event_type_eq payment_failed payment_failed = true
event_type_eq shipment_created shipment_created = true
event_type_eq shipment_failed shipment_failed = true
event_type_eq order_completed order_completed = true
event_type_eq order_cancelled order_cancelled = true
event_type_eq order_manual_review_required order_manual_review_required = true
event_type_eq (other s) (other t) = str_eq s t
event_type_eq _ _ = false

pub record OutboxEvent : Type 0 where
  pub message_id : String
  pub event_type : EventType
  pub schema_version : ℕ
  pub occurred_at : Time
  pub producer : String
  pub merchant_id : String
  pub order_id : String
  pub correlation_id : String
  pub causation_id : String
  pub payload : Fields

pub record AuditActor : Type 0 where
  pub type : String
  pub id : String
  pub reason : String

pub record AuditLog : Type 0 where
  pub merchant_id : String
  pub order_id : String
  pub actor_type : String
  pub actor_id : String
  pub action : String
  pub correlation_id : String
  pub created_at : Time
  pub details : Dict String

-- `audit.Details[key]`: a missing key, and a nil map, read as "".
abbrev pub detail : AuditLog → String → String
detail audit key = get_or (Dict.get audit.details key) ""

abbrev pub event_schema_version : ℕ
event_schema_version = 1

unfoldable pub with_default_causation : OutboxEvent → OutboxEvent
with_default_causation e =
    if str_eq e.causation_id "" then record e { causation_id = e.message_id } else e

unfoldable pub producer_for_event_type : EventType → String
producer_for_event_type order_created = "orders-api"
producer_for_event_type order_cancel_requested = "orders-api"
producer_for_event_type inventory_reserved = "inventory-worker"
producer_for_event_type inventory_rejected = "inventory-worker"
producer_for_event_type payment_authorized = "payment-worker"
producer_for_event_type payment_failed = "payment-worker"
producer_for_event_type shipment_created = "shipment-worker"
producer_for_event_type shipment_failed = "shipment-worker"
producer_for_event_type order_completed = "orders-worker"
producer_for_event_type order_cancelled = "orders-worker"
producer_for_event_type order_manual_review_required = "orders-worker"
producer_for_event_type (other s) = "fulfillhub"

abbrev status_field : OrderStatus → Fields → Fields
status_field status rest = field "order_status" (text (status_text status)) rest

abbrev time_field : String → Time → Fields
time_field key at = if at == 0 then end else field key (timestamp at) end

-- `failurePayload`, and the same map in `DefaultEventPayload`.
abbrev failure_field : String → String → Fields
failure_field stage reason =
    field "failure" (object (field "stage" (text stage) (field "reason" (text reason) end))) end

default_payload : EventType → Time → Fields
default_payload order_created at = status_field OrderStatus.pending_fulfillment end
default_payload inventory_reserved at = status_field OrderStatus.inventory_reserved end
default_payload payment_authorized at = status_field OrderStatus.payment_authorized end
default_payload shipment_created at = status_field OrderStatus.shipment_created end
default_payload order_cancel_requested at = status_field OrderStatus.cancellation_pending end
default_payload order_completed at =
    status_field OrderStatus.completed (time_field "completed_at" at)
default_payload order_cancelled at =
    status_field OrderStatus.cancelled (time_field "cancelled_at" at)
default_payload order_manual_review_required at = status_field OrderStatus.manual_review end
default_payload inventory_rejected at = failure_field "inventory" "unspecified"
default_payload payment_failed at = failure_field "payment" "unspecified"
default_payload shipment_failed at = failure_field "shipment" "unspecified"
default_payload (other s) at = end

unfoldable pub default_event_payload : OutboxEvent → Fields
unfolding default_payload
default_event_payload e = default_payload e.event_type e.occurred_at

default_schema_version : OutboxEvent → OutboxEvent
default_schema_version e =
    if e.schema_version == 0 then record e { schema_version = event_schema_version } else e

default_producer : OutboxEvent → OutboxEvent
default_producer e =
    if str_eq e.producer "" then record e { producer = producer_for_event_type e.event_type } else e

fill_payload : OutboxEvent → OutboxEvent
fill_payload e =
    if Json.is_empty e.payload then record e { payload = default_event_payload e } else e

unfoldable pub with_envelope_defaults : OutboxEvent → OutboxEvent
unfolding with_default_causation default_schema_version default_producer fill_payload
with_envelope_defaults e =
    fill_payload (default_producer (default_schema_version (with_default_causation e)))

-- `if _, ok := payload[key]; !ok { payload[key] = v }`
unfoldable pub put_missing : Fields → String → Value → Fields
put_missing fs key v = if Json.has fs key then fs else Json.put fs key v

payload_extras : OrderStatus → Time → AuditLog → Fields → Fields
unfolding put_missing
payload_extras OrderStatus.cancellation_pending at audit payload =
    put_missing (put_missing payload "reason" (text (trim_space (detail audit "reason"))))
      "requested_by"
      (object (
        field "type" (text (trim_space audit.actor_type))
          (field "id" (text (trim_space audit.actor_id)) end)))
payload_extras OrderStatus.completed at audit payload =
    put_missing payload "completed_at" (timestamp at)
payload_extras OrderStatus.cancelled at audit payload =
    put_missing payload "cancelled_at" (timestamp at)
payload_extras OrderStatus.manual_review at audit payload =
    let reason = trim_space (detail audit "review_reason") in
    if str_eq reason "" then payload else put_missing payload "review_reason" (text reason)
payload_extras _ at audit payload = payload

unfoldable pub order_status_event_payload : OrderStatus → Time → AuditLog → Fields → Fields
unfolding payload_extras
order_status_event_payload status at audit existing =
    payload_extras status at audit (Json.put existing "order_status" (text (status_text status)))

unfoldable pub failure_payload : String → String → Fields
failure_payload stage reason =
    failure_field stage (if str_eq reason "" then "unspecified" else reason)

-- The event type that a text denotes.
unfoldable pub event_type_of : String → EventType
event_type_of s =
    if str_eq s "order.created"
    then order_created
    else if str_eq s "order.cancel_requested"
    then order_cancel_requested
    else if str_eq s "inventory.reserved"
    then inventory_reserved
    else if str_eq s "inventory.rejected"
    then inventory_rejected
    else if str_eq s "payment.authorized"
    then payment_authorized
    else if str_eq s "payment.failed"
    then payment_failed
    else if str_eq s "shipment.created"
    then shipment_created
    else if str_eq s "shipment.failed"
    then shipment_failed
    else if str_eq s "order.completed"
    then order_completed
    else if str_eq s "order.cancelled"
    then order_cancelled
    else if str_eq s "order.manual_review_required"
    then order_manual_review_required
    else other s
