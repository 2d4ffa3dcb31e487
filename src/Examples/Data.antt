-- ===== src/Examples/Data.antt =====
-- A merchant's request, and the identifiers and times that the examples draw.
use fulfillhub_go_commerce_p.Prelude.{ℕ, String, [], ◌∷◌}
use fulfillhub_go_commerce_p.Dict
use fulfillhub_go_commerce_p.Json.{end}
use fulfillhub_go_commerce_p.Commerce.Model.{CreateOrderCommand, Money}
use fulfillhub_go_commerce_p.Commerce.Event.{EventType, OutboxEvent, AuditLog}
use fulfillhub_go_commerce_p.Commerce.Service.{Hashing, Draw}

-- A stand-in for SHA-256 and lower-casing.
abbrev pub hashing : Hashing
hashing = record { sha256_hex = λ s. s; to_lower = λ s. s }

abbrev pub draw : Draw
draw = record { now = 100; order_id = "ord_1"; message_id = "msg_1" }

abbrev pub later_draw : Draw
later_draw = record { now = 200; order_id = "ord_2"; message_id = "msg_2" }

abbrev pub usd : ℕ → Money
usd amount = record { amount = amount; currency = "USD" }

abbrev pub request : CreateOrderCommand
request = record {
  external_order_id = "web-1";
  currency = "USD";
  customer = record { id = "c1"; email = "a@b.c"; full_name = "A B" };
  shipping_address = record {
    line_1 = "1 Main";
    line_2 = "";
    city = "X";
    state = "Y";
    postal_code = "0";
    country = "US";
  };
  items =
      record { sku = "sku-1"; quantity = 2; unit_price = usd 500 }
      ∷ record { sku = "sku-2"; quantity = 1; unit_price = usd 250 }
      ∷ [];
  payment_method = record { provider = "card"; payment_token = "tok" };
}

abbrev pub merchant : String
merchant = "mer_1"

abbrev pub key : String
key = "attempt-000001"

abbrev pub event : String → EventType → OutboxEvent
event message_id event_type = record {
  message_id = message_id;
  event_type = event_type;
  schema_version = 1;
  occurred_at = 150;
  producer = "test";
  merchant_id = merchant;
  order_id = "ord_1";
  correlation_id = "corr";
  causation_id = "cause";
  payload = end;
}

abbrev pub audit : String → AuditLog
audit action = record {
  merchant_id = merchant;
  order_id = "ord_1";
  actor_type = "system";
  actor_id = "fulfillment-worker";
  action = action;
  correlation_id = "corr";
  created_at = 150;
  details = Dict.empty;
}

-- One item at the largest signed price.
abbrev pub dear_request : CreateOrderCommand
dear_request = record request {
  items = record { sku = "sku-1"; quantity = 1; unit_price = usd 0x7fffffffffffffff } ∷ [];
}
