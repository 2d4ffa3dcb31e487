-- ===== src/Commerce/Model.antt =====
-- internal/commerce/model.go: the order aggregate and the commands. A time is the nanoseconds since
-- Go's zero time, so that 0 is the zero time; amounts and quantities are 64-bit patterns.
use fulfillhub_go_commerce_p.Prelude.{ℕ, String, Option, List, Bool, true, false}
use fulfillhub_go_commerce_p.Prelude.Int64.{Int64}
use fulfillhub_go_commerce_p.Commerce.Status.{OrderStatus}

abbrev pub Time : Type 0
Time = ℕ

pub record Money : Type 0 where
  pub amount : Int64
  pub currency : String

pub record CustomerInput : Type 0 where
  pub id : String
  pub email : String
  pub full_name : String

pub record AddressInput : Type 0 where
  pub line_1 : String
  pub line_2 : String
  pub city : String
  pub state : String
  pub postal_code : String
  pub country : String

pub record OrderItemInput : Type 0 where
  pub sku : String
  pub quantity : Int64
  pub unit_price : Money

pub record PaymentMethodInput : Type 0 where
  pub provider : String
  pub payment_token : String

pub record CreateOrderCommand : Type 0 where
  pub external_order_id : String
  pub currency : String
  pub customer : CustomerInput
  pub shipping_address : AddressInput
  pub items : List OrderItemInput
  pub payment_method : PaymentMethodInput

-- The texts that the program writes into `ReservationStatus`.
pub data ReservationStatus : Type 0 where
  pending reserved rejected released : ReservationStatus

abbrev pub is_reserved : ReservationStatus → Bool
is_reserved reserved = true
is_reserved _ = false

pub record OrderItem : Type 0 where
  pub sku : String
  pub quantity : Int64
  pub unit_price : Money
  pub reservation_status : ReservationStatus

pub record OrderTotals : Type 0 where
  pub subtotal : Money
  pub shipping : Money
  pub total : Money

pub record Payment : Type 0 where
  pub provider : String
  pub status : String
  pub authorization_id : String
  pub credential_ref : String

pub record ShipmentEvent : Type 0 where
  pub occurred_at : Time
  pub status : String
  pub description : String

pub record Shipment : Type 0 where
  pub shipment_id : String
  pub status : String
  pub carrier : String
  pub tracking_number : String
  pub events : List ShipmentEvent

pub record ShipmentRecord : Type 0 where
  pub shipment_id : String
  pub order_id : String
  pub merchant_id : String
  pub carrier : String
  pub tracking_number : String
  pub status : String
  pub events : List ShipmentEvent

pub record Order : Type 0 where
  pub order_id : String
  pub merchant_id : String
  pub external_order_id : String
  pub status : OrderStatus
  pub currency : String
  pub totals : OrderTotals
  pub items : List OrderItem
  pub payment : Option Payment
  pub shipment : Option Shipment
  pub shipping_address_ref : String
  pub created_at : Time
  pub updated_at : Time
