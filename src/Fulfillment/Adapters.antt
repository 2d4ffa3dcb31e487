-- ===== src/Fulfillment/Adapters.antt =====
-- internal/fulfillment/provider_adapters.go, internal/providers/payment.go and
-- internal/providers/shipment.go: the adapters between the handlers and the providers, and the fake
-- providers. An adapter reads the order from the store; the provider behind it has no part in it.
use Prim.Native.String.{◌++◌}
use fulfillhub_go_commerce_p.Prelude.{String, [], ◌∷◌, Option, none, some, str_eq, if◌then◌else◌}
use fulfillhub_go_commerce_p.Prelude.Int64.{Int64}
use fulfillhub_go_commerce_p.Commerce.Model.{Time, Order, Payment, Shipment}
use fulfillhub_go_commerce_p.Commerce.Event.{OutboxEvent}
use fulfillhub_go_commerce_p.Commerce.Result.{
  Result, Op, ok, err, failure, return, fail, or_fail, ◌>>=◌, ◌>>◌,
}

pub record PaymentRequest : Type 0 where
  pub order_id : String
  pub merchant_id : String
  pub amount : Int64
  pub currency : String
  pub payment_credential_ref : String

pub record PaymentAuthorization : Type 0 where
  pub authorization_id : String
  pub status : String

pub record ShipmentRequest : Type 0 where
  pub order_id : String
  pub merchant_id : String
  pub address_id : String

pub record ShipmentBooking : Type 0 where
  pub shipment_id : String
  pub carrier : String
  pub tracking_number : String

abbrev pub PaymentProvider : Type 0
PaymentProvider = PaymentRequest → Result PaymentAuthorization

abbrev pub ShipmentProvider : Type 0
ShipmentProvider = ShipmentRequest → Result ShipmentBooking

unfoldable pub fake_authorize : PaymentProvider
fake_authorize request =
    if str_eq request.payment_credential_ref ""
    then err (failure "payment credential reference is required")
    else ok (record { authorization_id = "pay_fake_" ++ request.order_id; status = "authorized" })

unfoldable pub fake_create_shipment : ShipmentProvider
fake_create_shipment request =
    if str_eq request.address_id ""
    then err (failure "address id is required")
    else ok (record {
      shipment_id = "shp_fake_" ++ request.order_id;
      carrier = "fake-carrier";
      tracking_number = "TRACK-" ++ request.order_id;
    })

-- A provider's answer as an operation that leaves the store alone.
abbrev answer : {S A : Type 0} → Result A → Op S A
answer r s = (r, s)

-- `order.Payment == nil || order.Payment.CredentialRef == ""`
abbrev pub credential_ref_of : Option Payment → String
credential_ref_of none = ""
credential_ref_of (some payment) = payment.credential_ref

abbrev pub provider_of : Option Payment → String
provider_of none = ""
provider_of (some payment) = payment.provider

abbrev required : {S : Type 0} → String → String → Op S (Unit {0})
required value issue s = if str_eq value "" then fail (failure issue) s else return tt s

abbrev pub authorized_payment : Order → PaymentAuthorization → Payment
authorized_payment order authorization = record {
  provider = provider_of order.payment;
  status = authorization.status;
  authorization_id = authorization.authorization_id;
  credential_ref = credential_ref_of order.payment;
}

module _ {S : Type 0} (orders : Option (String → Op S Order)) where
  -- `ProviderPaymentAuthorizer.AuthorizePayment`
  unfoldable pub authorize_with : Option PaymentProvider → OutboxEvent → Op S Payment
  authorize_with provider event = do
    get ← or_fail orders (failure "order reader is required")
    authorize ← or_fail provider (failure "payment provider is required")
    order ← get event.order_id
    required (credential_ref_of order.payment) "payment credential reference is required"
    authorization ← answer (
        authorize (record {
          order_id = order.order_id;
          merchant_id = order.merchant_id;
          amount = order.totals.total.amount;
          currency = order.currency;
          payment_credential_ref = credential_ref_of order.payment;
        }))
    return (authorized_payment order authorization)

  -- `ProviderShipmentCreator.CreateShipment`, at its reading of the clock.
  unfoldable pub create_shipment_with : Option ShipmentProvider → Time → OutboxEvent → Op S Shipment
  create_shipment_with provider now event = do
    get ← or_fail orders (failure "order reader is required")
    create ← or_fail provider (failure "shipment provider is required")
    order ← get event.order_id
    required order.shipping_address_ref "shipping address reference is required"
    booking ← answer (
        create (record {
          order_id = order.order_id;
          merchant_id = order.merchant_id;
          address_id = order.shipping_address_ref;
        }))
    return (record {
      shipment_id = booking.shipment_id;
      status = "created";
      carrier = booking.carrier;
      tracking_number = booking.tracking_number;
      events =
          record {
            occurred_at = now;
            status = "created";
            description = "Shipment booking created by provider adapter.";
          }
          ∷ [];
    })
