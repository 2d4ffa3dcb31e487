-- ===== src/Fulfillment/Rules.antt =====
-- internal/fulfillment/handlers.go: the validations, plans and records that the handlers share.
use Prim.Native.String.{◌++◌}
use fulfillhub_go_commerce_p.Prelude.{
  ℕ, String, Bool, true, false, ◌&&◌, not, any, List, [], ◌∷◌, Option, none, some, str_eq,
  if◌then◌else◌,
}
use fulfillhub_go_commerce_p.Dict
use fulfillhub_go_commerce_p.Json.{end}
use fulfillhub_go_commerce_p.Commerce.Status.{OrderStatus}
use fulfillhub_go_commerce_p.Commerce.Model.{
  Time, Order, Payment, Shipment, ShipmentEvent, is_reserved,
}
use fulfillhub_go_commerce_p.Commerce.Event.{
  EventType, event_type_text, event_type_eq, OutboxEvent, AuditLog,
}
use fulfillhub_go_commerce_p.Commerce.Result.{Error, Result, Op, ok, err, failure}
use fulfillhub_go_commerce_p.Fulfillment.Ports.{Dependencies}

module _ {S A B : Type 0} where
  abbrev resume : Result A → (Error → Op S B) → (A → Op S B) → Op S B
  resume (ok a) on_error next s = next a s
  resume (err e) on_error next s = on_error e s

  -- `if a, err := m; err != nil { return onError(err) }; next(a)`
  abbrev pub recover : Op S A → (Error → Op S B) → (A → Op S B) → Op S B
  recover m on_error next s = let (r, t) = m s in resume r on_error next t

unfoldable pub validate_event_identity : OutboxEvent → Option Error
validate_event_identity event =
    if str_eq event.message_id ""
    then some (failure "message id is required")
    else if str_eq event.correlation_id ""
    then some (failure "correlation id is required")
    else if str_eq event.causation_id ""
    then some (failure "causation id is required")
    else if str_eq event.order_id ""
    then some (failure "order id is required")
    else if str_eq event.merchant_id ""
    then some (failure "merchant id is required")
    else none

unfoldable pub validate_event : OutboxEvent → EventType → Option Error
unfolding validate_event_identity event_type_eq
validate_event event expected =
    if not (event_type_eq event.event_type expected)
    then some (
        failure (
          "expected "
          ++ (event_type_text expected ++ (" event, got " ++ event_type_text event.event_type))))
    else validate_event_identity event

-- The early return on an error of a validation.
abbrev pub reject : {S : Type 0} → Option Error → Op S (Unit {0})
reject none s = (ok tt, s)
reject (some e) s = (err e, s)

unfoldable pub next_event_at :
    {S : Type 0} → Dependencies S → ℕ → OutboxEvent → EventType → OutboxEvent
next_event_at deps n previous event_type = record {
  message_id = deps.new_id n "msg";
  event_type = event_type;
  schema_version = 0;
  occurred_at = deps.clock;
  producer = "";
  merchant_id = previous.merchant_id;
  order_id = previous.order_id;
  correlation_id = previous.correlation_id;
  causation_id = previous.message_id;
  payload = end;
}

unfoldable pub system_audit : OutboxEvent → String → Time → AuditLog
system_audit event action now = record {
  merchant_id = event.merchant_id;
  order_id = event.order_id;
  actor_type = "system";
  actor_id = "fulfillment-worker";
  action = action;
  correlation_id = event.correlation_id;
  created_at = now;
  details =
      Dict.put (Dict.put Dict.empty "source_message_id" event.message_id) "source_event_type"
        (event_type_text event.event_type);
}

-- `audit.Details[key] = value`
abbrev pub with_detail : String → String → AuditLog → AuditLog
with_detail key value audit = record audit { details = Dict.put audit.details key value }

unfoldable pub is_notification_event : EventType → Bool
is_notification_event EventType.order_completed = true
is_notification_event EventType.order_cancelled = true
is_notification_event EventType.order_manual_review_required = true
is_notification_event EventType.inventory_rejected = true
is_notification_event EventType.payment_failed = true
is_notification_event EventType.shipment_failed = true
is_notification_event _ = false

unfoldable pub compensation_plan : EventType → Result (OrderStatus × String)
compensation_plan EventType.inventory_rejected =
    ok (OrderStatus.failed, "compensation.inventory_rejected")
compensation_plan EventType.payment_failed =
    ok (OrderStatus.cancelled, "compensation.payment_failed")
compensation_plan EventType.shipment_failed =
    ok (OrderStatus.cancellation_pending, "compensation.shipment_failed")
compensation_plan event_type =
    err (failure ("unsupported compensation event " ++ event_type_text event_type))

-- The `switch` that adds the details of the compensated event.
unfoldable pub compensation_details : EventType → AuditLog → AuditLog
compensation_details EventType.payment_failed audit = with_detail "stock_release" "requested" audit
compensation_details EventType.shipment_failed audit =
    with_detail "payment_void" "requested" (with_detail "stock_release" "requested" audit)
compensation_details _ audit = audit

unfoldable pub normalized_payment : Payment → Payment
normalized_payment payment =
    let named =
      if str_eq payment.provider ""
      then record payment { provider = "fake-payment" }
      else payment in
    if str_eq named.status "" then record named { status = "authorized" } else named

abbrev pub tracking : String → String
tracking shipment_id = "TRACK-" ++ shipment_id

abbrev pub booked : Time → String → ShipmentEvent
booked now status = record {
  occurred_at = now;
  status = status;
  description = "Shipment booking created by fulfillment worker.";
}

abbrev or_default : String → String → String
or_default value default = if str_eq value "" then default else value

no_events : List ShipmentEvent → Bool
no_events [] = true
no_events (e ∷ es) = false

-- `id` is what `NewID("shp")` draws if the shipment has no identifier.
unfoldable pub normalized_shipment : String → Time → Shipment → Shipment
unfolding no_events
normalized_shipment id now shipment =
    let shipment_id = or_default shipment.shipment_id id in
    let status = or_default shipment.status "created" in
    record {
      shipment_id = shipment_id;
      status = status;
      carrier = or_default shipment.carrier "fake-carrier";
      tracking_number = or_default shipment.tracking_number (tracking shipment_id);
      events = if no_events shipment.events then booked now status ∷ [] else shipment.events;
    }

has_handoff : Option Shipment → Bool
has_handoff none = false
has_handoff (some shipment) =
    not (str_eq shipment.status "") && not (str_eq shipment.status "failed")

abbrev is_completed : OrderStatus → Bool
is_completed OrderStatus.completed = true
is_completed _ = false

unfoldable pub requires_manual_review : Order → Bool
unfolding has_handoff
requires_manual_review order =
    if is_completed order.status then true else has_handoff order.shipment

unfoldable pub has_reserved_inventory : Order → Bool
has_reserved_inventory order = any (λ item. is_reserved item.reservation_status) order.items

is_authorized : Option Payment → Bool
is_authorized none = false
is_authorized (some payment) = str_eq payment.status "authorized"

unfoldable pub has_authorized_payment : Order → Bool
unfolding is_authorized
has_authorized_payment order = is_authorized order.payment
