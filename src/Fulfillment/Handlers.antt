-- ===== src/Fulfillment/Handlers.antt =====
-- internal/fulfillment/handlers.go: the handlers and `HandlerForQueue`.
use Prim.Native.String.{◌++◌}
use fulfillhub_go_commerce_p.Prelude.{ℕ, String, [], ◌∷◌, Option, none, some, str_eq, if◌then◌else◌}
use fulfillhub_go_commerce_p.Commerce.Status.{OrderStatus, status_text}
use fulfillhub_go_commerce_p.Commerce.Model.{Order, Payment, Shipment}
use fulfillhub_go_commerce_p.Commerce.Event.{EventType, event_type_text, OutboxEvent, AuditLog}
use fulfillhub_go_commerce_p.Commerce.Result.{
  Error, error_text, Result, Op, ok, err, failure, insufficient_stock, return, fail, or_fail, ◌>>=◌,
  ◌>>◌,
}
use fulfillhub_go_commerce_p.Messaging.Topology.{Queue}
use fulfillhub_go_commerce_p.Fulfillment.Ports.{Dependencies, Projector, OrderStatusUpdater}
use fulfillhub_go_commerce_p.Fulfillment.Rules.{
  recover, reject, validate_event, validate_event_identity, next_event_at, system_audit,
  with_detail, is_notification_event, compensation_plan, compensation_details, normalized_payment,
  normalized_shipment, requires_manual_review, has_reserved_inventory, has_authorized_payment,
  tracking, booked,
}

abbrev projector_required : Error
projector_required = failure "fulfillment projector is required"

abbrev orders_required : Error
orders_required = failure "order status updater is required"

module _ {S : Type 0} (deps : Dependencies S) (event : OutboxEvent) where
  -- The next event and the audit of the handled one, at the handler's reading of the clock.
  abbrev next : ℕ → EventType → OutboxEvent
  next n event_type = next_event_at deps n event event_type

  abbrev audit : String → AuditLog
  audit action = system_audit event action deps.clock

  unfoldable pub record_compensation : Op S (Unit {0})
  unfolding compensation_details
  record_compensation = do
    projector ← or_fail deps.projector projector_required
    plan ← λ s. (compensation_plan event.event_type, s)
    reject (validate_event_identity event)
    projector.compensation event plan.0 (
        compensation_details event.event_type
          (with_detail "target_order_status" (status_text plan.0) (audit plan.1)))

  unfoldable pub queue_notification : Op S (Unit {0})
  queue_notification = do
    projector ← or_fail deps.projector projector_required
    reject (
        if is_notification_event event.event_type
        then none
        else some (failure ("expected notifiable event, got " ++ event_type_text event.event_type)))
    reject (validate_event_identity event)
    projector.notification_queued event (audit "notification.email_queued")

  -- `n` is the number of message identifiers drawn before.
  record_inventory_rejected : Projector S → ℕ → Error → Op S (Unit {0})
  record_inventory_rejected projector n cause =
      projector.inventory_rejected event (next n EventType.inventory_rejected)
        (with_detail "error" (error_text cause) (audit "inventory.rejected"))

  -- `errors.Is(err, commerce.ErrInsufficientStock)`
  reject_stock : Projector S → Error → Op S (Unit {0})
  unfolding record_inventory_rejected
  reject_stock projector (insufficient_stock sku) =
      record_inventory_rejected projector 1 (insufficient_stock sku)
  reject_stock projector e = fail e

  record_reservation : Projector S → Op S (Unit {0})
  unfolding reject_stock
  record_reservation projector =
      recover
        (projector.inventory_reserved event (next 0 EventType.inventory_reserved)
          (audit "inventory.reserved"))
        (reject_stock projector) return

  unfoldable pub reserve_inventory : Op S (Unit {0})
  unfolding record_inventory_rejected record_reservation
  reserve_inventory = do
    projector ← or_fail deps.projector projector_required
    reject (validate_event event EventType.order_created)
    elim deps.inventory_reserver [
      | none ↦ record_reservation projector
      | some reserve ↦
          recover (reserve event) (record_inventory_rejected projector 0)
            (λ _. record_reservation projector)
    ]

  fail_payment : Projector S → Error → Op S (Unit {0})
  fail_payment projector cause =
      projector.payment_failed event (next 0 EventType.payment_failed)
        (with_detail "error" (error_text cause) (audit "payment.failed"))

  record_payment : Projector S → Payment → Op S (Unit {0})
  record_payment projector payment =
      projector.payment_authorized event (next 0 EventType.payment_authorized) payment
        (audit "payment.authorized")

  -- `if payment.AuthorizationID == "" { payment.AuthorizationID = deps.NewID("pay") }`
  identified : Payment → Payment
  identified payment =
      if str_eq payment.authorization_id ""
      then record payment { authorization_id = deps.new_id 0 "pay" }
      else payment

  unfoldable pub authorize_payment : Op S (Unit {0})
  unfolding fail_payment record_payment identified
  authorize_payment = do
    projector ← or_fail deps.projector projector_required
    reject (validate_event event EventType.inventory_reserved)
    elim deps.payment_authorizer [
      | some authorize ↦
          recover (authorize event) (fail_payment projector)
            (λ authorized. record_payment projector (identified (normalized_payment authorized)))
      | none ↦ record_payment projector (
          normalized_payment (record {
            provider = "fake-payment";
            status = "authorized";
            authorization_id = deps.new_id 0 "pay";
            credential_ref = "";
          }))
    ]

  fail_shipment : Projector S → Error → Op S (Unit {0})
  fail_shipment projector cause =
      projector.shipment_failed event (next 0 EventType.shipment_failed)
        (with_detail "error" (error_text cause) (audit "shipment.failed"))

  record_shipment : Projector S → Shipment → Op S (Unit {0})
  record_shipment projector shipment =
      projector.shipment_created event (next 0 EventType.shipment_created)
        (normalized_shipment (deps.new_id 0 "shp") deps.clock shipment) (audit "shipment.created")

  unfoldable pub create_shipment : Op S (Unit {0})
  unfolding fail_shipment record_shipment
  create_shipment = do
    projector ← or_fail deps.projector projector_required
    reject (validate_event event EventType.payment_authorized)
    elim deps.shipment_creator [
      | some create ↦ recover (create event) (fail_shipment projector) (record_shipment projector)
      | none ↦ record_shipment projector (record {
        shipment_id = deps.new_id 0 "shp";
        status = "created";
        carrier = "fake-carrier";
        tracking_number = tracking (deps.new_id 0 "shp");
        events = booked deps.clock "created" ∷ [];
      })
    ]

  -- The branches of `completeOrder` on the order's status.
  complete_from : OrderStatusUpdater S → OrderStatus → Op S (Unit {0})
  complete_from orders OrderStatus.shipment_created = do
    orders.update_status event.order_id OrderStatus.completed deps.clock
          (next 0 EventType.order_completed) (audit "order.completed")
        >>= λ updated. return tt
  complete_from orders OrderStatus.completed = return tt
  complete_from orders OrderStatus.cancellation_pending = return tt
  complete_from orders OrderStatus.manual_review = return tt
  complete_from orders OrderStatus.cancelled = return tt
  complete_from orders status =
      fail (failure ("cannot complete order from status " ++ status_text status))

  unfoldable pub complete_order : Op S (Unit {0})
  unfolding complete_from
  complete_order = do
    orders ← or_fail deps.orders orders_required
    reject (validate_event event EventType.shipment_created)
    order ← orders.get event.order_id
    complete_from orders order.status

  abbrev review : AuditLog
  review =
      with_detail "review_reason" "shipment_already_created" (audit "order.manual_review_required")

  review_audit : Option Shipment → AuditLog
  review_audit none = review
  review_audit (some shipment) =
      if str_eq shipment.shipment_id ""
      then review
      else with_detail "shipment_id" shipment.shipment_id review

  cancel_audit : Order → AuditLog
  cancel_audit order =
      let first = audit "order.cancelled" in
      let second =
        if has_reserved_inventory order
        then with_detail "stock_release" "requested" first
        else first in
      if has_authorized_payment order then with_detail "payment_void" "requested" second else second

  -- What follows the early return for an order that is cancelled or under review.
  cancel_open : OrderStatusUpdater S → Order → Op S (Unit {0})
  unfolding review_audit cancel_audit
  cancel_open orders order =
      if requires_manual_review order
      then (orders.update_status event.order_id OrderStatus.manual_review deps.clock
            (next 0 EventType.order_manual_review_required) (review_audit order.shipment)
          >>= λ updated. return tt)
      else (or_fail deps.projector projector_required >>= λ projector.
          projector.order_cancelled event (next 0 EventType.order_cancelled) (cancel_audit order))

  cancel_from : OrderStatusUpdater S → Order → OrderStatus → Op S (Unit {0})
  unfolding cancel_open
  cancel_from orders order OrderStatus.cancelled = return tt
  cancel_from orders order OrderStatus.manual_review = return tt
  cancel_from orders order status = cancel_open orders order

  unfoldable pub cancel_order : Op S (Unit {0})
  unfolding cancel_from
  cancel_order = do
    orders ← or_fail deps.orders orders_required
    reject (validate_event event EventType.order_cancel_requested)
    order ← orders.get event.order_id
    cancel_from orders order order.status

-- The handler of a queue, or the refusal of a queue that no handler serves.
unfoldable pub handler_for_queue :
    {S : Type 0} → Queue → Dependencies S → Result (OutboxEvent → Op S (Unit {0}))
handler_for_queue Queue.inventory_reserve deps = ok (reserve_inventory deps)
handler_for_queue Queue.payments_authorize deps = ok (authorize_payment deps)
handler_for_queue Queue.shipments_create deps = ok (create_shipment deps)
handler_for_queue Queue.orders_finalize deps = ok (complete_order deps)
handler_for_queue Queue.orders_cancel deps = ok (cancel_order deps)
handler_for_queue Queue.notifications_email deps = ok (queue_notification deps)
handler_for_queue Queue.orders_compensate deps = ok (record_compensation deps)
handler_for_queue (Queue.other s) deps =
    err (failure ("unsupported worker queue \"" ++ (s ++ "\"")))
