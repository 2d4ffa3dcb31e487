-- ===== src/Postgres/Writes.antt =====
-- internal/postgres/store.go: what the `Record…` methods write, the payloads of their events and the
-- constraints of the tables.
use fulfillhub_go_commerce_p.Prelude.{
  String, Bool, not, ◌&&◌, ◌||◌, List, [], ◌∷◌, any, Option, none, some, str_eq, if◌then◌else◌,
  get_or,
}
use fulfillhub_go_commerce_p.Prelude.Int64.{is_negative}
use fulfillhub_go_commerce_p.Json.{
  Fields, Value, Items, end, field, text, number, object, nil, cons,
}
use fulfillhub_go_commerce_p.Commerce.Status.{OrderStatus, status_text}
use fulfillhub_go_commerce_p.Commerce.Model.{Time, Payment, Shipment}
use fulfillhub_go_commerce_p.Commerce.Event.{OutboxEvent, AuditLog}
use fulfillhub_go_commerce_p.Postgres.Tables.{Database, OrderRow, upsert}
use fulfillhub_go_commerce_p.Postgres.{unique_violation, check_violation}
use fulfillhub_go_commerce_p.Postgres.Rows.{nullable_string}
use fulfillhub_go_commerce_p.Postgres.Stock.{ReservationItem}

unfoldable pub reservation : ReservationItem × String → Value
reservation (item, warehouse) = object (
    field "sku" (text item.sku)
      (field "quantity" (number item.quantity) (field "warehouse_id" (text warehouse) end)))

unfoldable pub reservations : List (ReservationItem × String) → Items
unfolding reservation
reservations [] = nil
reservations (r ∷ rs) = cons (reservation r) (reservations rs)

-- `COALESCE(NULLIF($2, ''), payment_provider, 'fake-payment')`
unfoldable pub paid_provider : String → OrderRow → String
unfolding nullable_string
paid_provider provider row = elim (nullable_string provider) [
  | none ↦ get_or row.payment_provider "fake-payment"
  | some p ↦ p
]

abbrev voided_or_authorized : String → Bool
voided_or_authorized s = str_eq s "authorized" || str_eq s "voided"

-- The primary key of `payment_authorizations`, and its checks.
unfoldable pub payment_breach : String → Payment → OrderRow → Database → Option String
payment_breach order_id p row db =
    if not (voided_or_authorized p.status) || is_negative row.total_amount
    then some check_violation
    else if any
        (λ r. str_eq r.authorization_id p.authorization_id && not (str_eq r.order_id order_id))
        db.payment_authorizations
    then some unique_violation
    else none

unfoldable pub set_payment : OutboxEvent → Payment → String → OrderRow → Time → Database → Database
set_payment source p provider row at db = record db {
  payment_authorizations =
      upsert (λ r. str_eq r.order_id source.order_id)
        (record {
          authorization_id = p.authorization_id;
          order_id = source.order_id;
          merchant_id = source.merchant_id;
          provider = provider;
          status = p.status;
          amount = row.total_amount;
          currency = row.currency;
          authorized_at = at;
          voided_at = none;
        })
        (λ r. record r {
          authorization_id = p.authorization_id;
          provider = provider;
          status = p.status;
          amount = row.total_amount;
          currency = row.currency;
          authorized_at = at;
          voided_at = none;
        })
        db.payment_authorizations;
}

unfoldable pub paid_payload : OrderRow → String → Payment → Fields
paid_payload row provider p =
    field "order_status" (text (status_text OrderStatus.payment_authorized)) (
      field "payment"
        (object (
          field "provider" (text provider) (
            field "authorization_id" (text p.authorization_id) (
              field "amount" (number row.total_amount)
                (field "currency" (text row.currency) end)))))
        end)

-- The keys of `shipments`, and its check.
unfoldable pub shipment_breach : String → Shipment → Database → Option String
shipment_breach order_id s db =
    if not (str_eq s.status "created" || str_eq s.status "failed")
    then some check_violation
    else if any
        (λ r.
          (str_eq r.shipment_id s.shipment_id || str_eq r.tracking_number s.tracking_number)
          && not (str_eq r.order_id order_id))
        db.shipments
    then some unique_violation
    else none

unfoldable pub set_shipment : OutboxEvent → Shipment → Time → Database → Database
set_shipment source s at db = record db {
  shipments =
      upsert (λ r. str_eq r.order_id source.order_id)
        (record {
          shipment_id = s.shipment_id;
          order_id = source.order_id;
          merchant_id = source.merchant_id;
          carrier = s.carrier;
          tracking_number = s.tracking_number;
          status = s.status;
          created_at = at;
          updated_at = at;
        })
        (λ r. record r {
          shipment_id = s.shipment_id;
          carrier = s.carrier;
          tracking_number = s.tracking_number;
          status = s.status;
          updated_at = at;
        })
        db.shipments;
}

unfoldable pub shipped_payload : Shipment → Fields
shipped_payload s = field "order_status" (text (status_text OrderStatus.shipment_created)) (
    field "shipment"
      (object (
        field "shipment_id" (text s.shipment_id) (
          field "carrier" (text s.carrier) (field "tracking_number" (text s.tracking_number) end))))
      end)

unfoldable pub set_notification : OutboxEvent → AuditLog → Database → Database
set_notification source audit db = record db {
  notification_events =
      upsert (λ r. str_eq r.source_message_id source.message_id)
        (record {
          order_id = source.order_id;
          merchant_id = source.merchant_id;
          source_message_id = source.message_id;
          source_event_type = source.event_type;
          status = "queued";
          correlation_id = source.correlation_id;
          created_at = audit.created_at;
        })
        (λ r. record r {
          status = "queued";
          correlation_id = source.correlation_id;
          created_at = audit.created_at;
        })
        db.notification_events;
}

unfoldable pub set_compensation : OutboxEvent → OrderStatus → AuditLog → Database → Database
set_compensation source status audit db = record db {
  compensation_events =
      upsert (λ r. str_eq r.source_message_id source.message_id)
        (record {
          order_id = source.order_id;
          merchant_id = source.merchant_id;
          source_message_id = source.message_id;
          source_event_type = source.event_type;
          action = audit.action;
          target_order_status = status;
          status = "recorded";
          correlation_id = source.correlation_id;
          created_at = audit.created_at;
        })
        (λ r. record r {
          target_order_status = status;
          status = "recorded";
          correlation_id = source.correlation_id;
          created_at = audit.created_at;
        })
        db.compensation_events;
}
