-- ===== src/Commerce/Service.antt =====
-- internal/commerce/service.go: `Service` over the memory store. The clock's reading and the texts
-- that `nextID` draws at random are arguments; SHA-256 and lower-casing are parameters.
pub mod Replay
pub mod Totals
use Prim.Native.String.{◌++◌, slice}
use fulfillhub_go_commerce_p.Prelude.{
  String, Bool, List, [], ◌∷◌, map, Option, none, some, ◌||◌, if◌then◌else◌, length,
}
use fulfillhub_go_commerce_p.Prelude.Int64.{Int64, add, mul}
use fulfillhub_go_commerce_p.Prelude.Text.{trim_space}
use fulfillhub_go_commerce_p.Dict
use fulfillhub_go_commerce_p.Json.{end, field, text, number, object}
use fulfillhub_go_commerce_p.Commerce.Status.{OrderStatus, status_text, status_eq}
use fulfillhub_go_commerce_p.Commerce.Model.{
  Time, Order, OrderItem, OrderItemInput, ReservationStatus, OrderTotals, AddressInput,
  CreateOrderCommand,
}
use fulfillhub_go_commerce_p.Commerce.Event.{
  EventType, OutboxEvent, AuditActor, AuditLog, event_schema_version, producer_for_event_type,
}
use fulfillhub_go_commerce_p.Commerce.Result.{
  FieldError, Op, validation, invalid_state_transition, return, fail, ◌>>=◌, ◌>>◌,
}
use fulfillhub_go_commerce_p.Commerce.Validation.{validate_create_order, validate_cancel_actor}
use fulfillhub_go_commerce_p.Commerce.Store.{
  MemoryStore, check_transition, insert_order, get_order, update_order_status,
}

pub record Hashing : Type 0 where
  pub sha256_hex : String → String
  pub to_lower : String → String

-- What one request draws from the clock and from `nextID("ord")` and `nextID("msg")`.
pub record Draw : Type 0 where
  pub now : Time
  pub order_id : String
  pub message_id : String

-- The error that a list of field errors stands for.
unfoldable pub reject_invalid : List FieldError → Op MemoryStore (Unit {0})
reject_invalid [] = return tt
reject_invalid (e ∷ es) = fail (validation (e ∷ es))

unfoldable pub order_items : List OrderItemInput → List OrderItem
order_items items =
    map
      (λ item. record {
        sku = item.sku;
        quantity = item.quantity;
        unit_price = item.unit_price;
        reservation_status = ReservationStatus.pending;
      })
      items

-- `subtotal.Amount += int64(item.Quantity) * item.UnitPrice.Amount`, which wraps.
unfoldable pub subtotal_from : Int64 → List OrderItemInput → Int64
subtotal_from acc [] = acc
subtotal_from acc (item ∷ items) =
    subtotal_from (add acc (mul item.quantity item.unit_price.amount)) items

abbrev pub shipping_amount : Int64
shipping_amount = 1200

unfoldable pub order_totals : CreateOrderCommand → OrderTotals
unfolding subtotal_from
order_totals req = record {
  subtotal = record { amount = subtotal_from 0 req.items; currency = req.currency };
  shipping = record { amount = shipping_amount; currency = req.currency };
  total = record {
    amount = add (subtotal_from 0 req.items) shipping_amount;
    currency = req.currency;
  };
}

module _ (h : Hashing) where
  unfoldable pub opaque_reference : String → String → String
  opaque_reference prefix value = prefix ++ ("_" ++ slice (h.sha256_hex (trim_space value)) 0 24)

  unfoldable pub address_fingerprint : AddressInput → String
  address_fingerprint a = h.to_lower (
      a.line_1
      ++ ("|"
          ++ (a.line_2
              ++ ("|"
                  ++ (a.city
                      ++ ("|" ++ (a.state ++ ("|" ++ (a.postal_code ++ ("|" ++ a.country))))))))))

  unfoldable pub new_order : Draw → String → CreateOrderCommand → Order
  unfolding opaque_reference address_fingerprint order_items order_totals
  new_order d merchant_id req = record {
    order_id = d.order_id;
    merchant_id = merchant_id;
    external_order_id = req.external_order_id;
    status = OrderStatus.pending_fulfillment;
    currency = req.currency;
    totals = order_totals req;
    items = order_items req.items;
    payment = some (record {
      provider = req.payment_method.provider;
      status = "pending_authorization";
      authorization_id = "";
      credential_ref = opaque_reference "paycred" req.payment_method.payment_token;
    });
    shipment = none;
    shipping_address_ref = opaque_reference "addr" (address_fingerprint req.shipping_address);
    created_at = d.now;
    updated_at = d.now;
  }

created_event : Draw → String → Order → OutboxEvent
created_event d correlation_id order = record {
  message_id = d.message_id;
  event_type = EventType.order_created;
  schema_version = event_schema_version;
  occurred_at = d.now;
  producer = producer_for_event_type EventType.order_created;
  merchant_id = order.merchant_id;
  order_id = order.order_id;
  correlation_id = correlation_id;
  causation_id = d.message_id;
  payload = field "external_order_id" (text order.external_order_id) (
      field "order_status" (text (status_text order.status)) (
        field "currency" (text order.currency) (
          field "total_amount" (number order.totals.total.amount)
            (field "item_count" (number (length order.items)) end))));
}

created_audit : Draw → String → Order → AuditLog
created_audit d correlation_id order = record {
  merchant_id = order.merchant_id;
  order_id = order.order_id;
  actor_type = "merchant";
  actor_id = order.merchant_id;
  action = "order.create";
  correlation_id = correlation_id;
  created_at = d.now;
  details = Dict.empty;
}

-- `CreateOrderContext`: the order, and whether it is a replay.
unfoldable pub create_order :
    Hashing
    → Draw
    → String
    → String
    → String
    → CreateOrderCommand
    → Op MemoryStore (Option Order × Bool)
unfolding reject_invalid created_event created_audit
create_order h d merchant_id idempotency_key correlation_id req = do
  reject_invalid (validate_create_order merchant_id idempotency_key req)
  let order = new_order h d merchant_id req
  insert_order merchant_id idempotency_key order (created_event d correlation_id order)
      (created_audit d correlation_id order)

cancel_event : Draw → String → AuditActor → Order → String → OutboxEvent
cancel_event d correlation_id actor order order_id = record {
  message_id = d.message_id;
  event_type = EventType.order_cancel_requested;
  schema_version = event_schema_version;
  occurred_at = d.now;
  producer = producer_for_event_type EventType.order_cancel_requested;
  merchant_id = order.merchant_id;
  order_id = order_id;
  correlation_id = correlation_id;
  causation_id = d.message_id;
  payload = field "order_status" (text (status_text OrderStatus.cancellation_pending)) (
      field "reason" (text (trim_space actor.reason)) (
        field "requested_by"
          (object (
            field "type" (text (trim_space actor.type))
              (field "id" (text (trim_space actor.id)) end)))
          end));
}

cancel_audit : Draw → String → AuditActor → Order → String → AuditLog
cancel_audit d correlation_id actor order order_id = record {
  merchant_id = order.merchant_id;
  order_id = order_id;
  actor_type = trim_space actor.type;
  actor_id = trim_space actor.id;
  action = "order.cancel_requested";
  correlation_id = correlation_id;
  created_at = d.now;
  details = Dict.put Dict.empty "reason" (trim_space actor.reason);
}

-- `order.Status == StatusCompleted || order.Status == StatusCancelled`
unfoldable pub is_closed : OrderStatus → Bool
unfolding status_eq
is_closed status = status_eq status OrderStatus.completed || status_eq status OrderStatus.cancelled

reject_closed : OrderStatus → Op MemoryStore (Unit {0})
unfolding is_closed
reject_closed status s =
    if is_closed status then fail (invalid_state_transition none) s else return tt s

-- `CancelOrderContext`.
unfoldable pub cancel_order : Draw → String → String → AuditActor → Op MemoryStore Order
unfolding reject_invalid reject_closed cancel_event cancel_audit get_order check_transition
cancel_order d order_id correlation_id actor = do
  reject_invalid (validate_cancel_actor actor)
  order ← get_order order_id
  reject_closed order.status
  check_transition order.status OrderStatus.cancellation_pending
  update_order_status order_id OrderStatus.cancellation_pending d.now
      (cancel_event d correlation_id actor order order_id)
      (cancel_audit d correlation_id actor order order_id)
