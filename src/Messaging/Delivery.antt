-- ===== src/Messaging/Delivery.antt =====
-- internal/messaging/consumer.go: a delivery's headers and its decoding. The JSON decoder is a
-- parameter.
use fulfillhub_go_commerce_p.Prelude.{
  String, List, [], ◌∷◌, Option, none, some, str_eq, ◌==◌, if◌then◌else◌,
}
use fulfillhub_go_commerce_p.Prelude.Int64.{Int64}
use fulfillhub_go_commerce_p.Prelude.Text.{decimal}
use fulfillhub_go_commerce_p.Dict
use fulfillhub_go_commerce_p.Dict.{Dict}
use Prim.Native.String.{◌++◌}
use fulfillhub_go_commerce_p.Commerce.Event.{
  OutboxEvent, event_type_eq, event_type_of, other, event_schema_version, with_envelope_defaults,
}
use fulfillhub_go_commerce_p.Commerce.Result.{Result, ok, err, failure}

-- An AMQP header: an integer of any width, converted to a 64-bit `int`; a text or bytes; or else.
pub data Header : Type 0 where
  int : Int64 → Header
  text : String → Header
  opaque : Header

pub record Delivery : Type 0 where
  pub message_id : String
  pub correlation_id : String
  pub routing_key : String
  pub type : String
  pub headers : Dict Header
  pub body : String

-- `json.Unmarshal(body, &event)`, with the decoder's error text.
abbrev pub Decoder : Type 0
Decoder = String → Result OutboxEvent

attempt_of : Option Header → Int64
attempt_of none = 0
attempt_of (some (int n)) = n
attempt_of (some (text s)) = 0
attempt_of (some opaque) = 0

unfoldable pub retry_attempt : Dict Header → Int64
unfolding attempt_of
retry_attempt headers = attempt_of (Dict.get headers "fulfillhub_retry_attempt")

text_of : Option Header → String
text_of none = ""
text_of (some (int n)) = ""
text_of (some (text s)) = s
text_of (some opaque) = ""

unfoldable pub header_string : Dict Header → String → String
unfolding text_of
header_string headers key = text_of (Dict.get headers key)

unfoldable pub first_non_empty : List String → String
first_non_empty [] = ""
first_non_empty (s ∷ rest) = if str_eq s "" then first_non_empty rest else s

abbrev or_text : String → String → String
or_text value default = if str_eq value "" then default else value

-- The fields that the body may leave out, from the delivery.
unfoldable pub fill_from_delivery : Delivery → OutboxEvent → OutboxEvent
unfolding header_string first_non_empty event_type_eq event_type_of
fill_from_delivery delivery event =
    let message_id = or_text event.message_id delivery.message_id in
    record event {
      message_id = message_id;
      correlation_id = or_text event.correlation_id delivery.correlation_id;
      causation_id = or_text event.causation_id (
          first_non_empty (
            header_string delivery.headers "causation_id" ∷ delivery.message_id ∷ message_id ∷ []));
      event_type =
          if event_type_eq event.event_type (other "")
          then event_type_of delivery.type
          else event.event_type;
      schema_version =
          if event.schema_version == 0 then event_schema_version else event.schema_version;
    }

accept_version : OutboxEvent → Result OutboxEvent
accept_version event =
    if event.schema_version == event_schema_version
    then ok (with_envelope_defaults event)
    else err (failure ("unsupported event schema version " ++ decimal event.schema_version))

decoded : Delivery → Result OutboxEvent → Result OutboxEvent
unfolding fill_from_delivery accept_version
decoded delivery (ok event) = accept_version (fill_from_delivery delivery event)
decoded delivery (err e) = err e

unfoldable pub decode_delivery : Decoder → Delivery → Result OutboxEvent
unfolding decoded
decode_delivery unmarshal delivery = decoded delivery (unmarshal delivery.body)
