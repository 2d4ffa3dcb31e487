-- ===== src/Api.antt =====
-- internal/api/server.go: the handlers of orders and shipments behind the routing, and the error
-- responses. The meta data of a response, logging, tracing and the error counter are left out.
pub mod Tenancy
pub mod Creation
use Prim.Native.String.{◌++◌}
use fulfillhub_go_commerce_p.Prelude.{
  ℕ, String, Bool, true, false, ◌&&◌, ◌||◌, not, List, [], ◌∷◌, Option, none, some, str_eq,
  if◌then◌else◌,
}
use fulfillhub_go_commerce_p.Prelude.Text.{is_blank}
use fulfillhub_go_commerce_p.Dict
use fulfillhub_go_commerce_p.Dict.{Dict}
use fulfillhub_go_commerce_p.Commerce.Status.{OrderStatus}
use fulfillhub_go_commerce_p.Commerce.Model.{Time, Order, ShipmentRecord, CreateOrderCommand}
use fulfillhub_go_commerce_p.Commerce.Event.{AuditActor}
use fulfillhub_go_commerce_p.Commerce.Result.{
  FieldError, Error, duplicate_order, not_found, invalid_state_transition, validation, Result, ok,
  err,
}
use fulfillhub_go_commerce_p.Commerce.Store.{MemoryStore, get_order, get_shipment}
use fulfillhub_go_commerce_p.Commerce.Service
use fulfillhub_go_commerce_p.Commerce.Service.{Hashing, Draw}

-- The `actor` of a request.
pub record Actor : Type 0 where
  pub merchant_id : String
  pub actor_id : String
  pub ops : Bool

-- The body of an accepted write.
pub record Accepted : Type 0 where
  pub order_id : String
  pub merchant_id : String
  pub status : OrderStatus
  pub accepted_at : Time

pub record Problem : Type 0 where
  pub code : String
  pub message : String
  pub retryable : Bool
  pub details : List FieldError

-- A status with a body; `replayed` is the header `X-Idempotent-Replay`. A nil order is dereferenced
-- in Go, which is `crashed`.
pub data Reply : Type 0 where
  order_found : ℕ → Order → Reply
  shipment_found : ℕ → ShipmentRecord → Reply
  accepted : ℕ → (replayed : Bool) → Accepted → Reply
  problem : ℕ → Problem → Reply
  crashed : Reply

-- What `decodeJSON` makes of the body.
pub data Decoded (A : Type 0) : Type 0 where
  body : A → Decoded A
  too_large malformed : Decoded A

-- What the limiter answers.
pub data Allowance : Type 0 where
  unlimited allowed exhausted unavailable : Allowance

abbrev pub write_error : ℕ → String → String → Bool → List FieldError → Reply
write_error status code message retryable details =
    problem status
      (record { code = code; message = message; retryable = retryable; details = details })

unfoldable pub handle_commerce_error : Error → Reply
handle_commerce_error (validation fields) =
    write_error 422 "validation_failed" "Request body contains invalid fields." false fields
handle_commerce_error duplicate_order =
    write_error 409 "duplicate_order"
      "The external order ID has already been accepted for this merchant." false []
handle_commerce_error (invalid_state_transition issue) =
    write_error 409 "invalid_state_transition" "The requested state transition is not allowed."
      false []
handle_commerce_error not_found = write_error 404 "not_found" "Resource not found." false []
handle_commerce_error _ = write_error 500 "internal_error" "Unexpected server error." true []

abbrev undecodable : Bool → Reply
undecodable true =
    write_error 413 "payload_too_large" "Request body exceeds the maximum allowed size." false []
undecodable false = write_error 400 "invalid_json" "Request body is not valid JSON." false []

abbrev pub unauthorized : String → Reply
unauthorized message = write_error 401 "unauthorized" message false []

abbrev pub forbidden : String → Reply
forbidden message = write_error 403 "forbidden" message false []

-- `!act.Ops && act.MerchantID != …`
abbrev pub is_foreign : Actor → String → Bool
is_foreign act merchant_id = not act.ops && not (str_eq act.merchant_id merchant_id)

abbrev pub merchant_actor : String → Actor
merchant_actor merchant_id = record { merchant_id = merchant_id; actor_id = ""; ops = false }

get_order_found : Actor → Result Order → Reply
get_order_found act (err e) = handle_commerce_error e
get_order_found act (ok order) =
    if is_foreign act order.merchant_id
    then forbidden "The caller cannot access this order."
    else order_found 200 order

-- `getOrder` after the authentication.
unfoldable pub get_order_as : Actor → String → MemoryStore → Reply
unfolding get_order_found
get_order_as act order_id s = get_order_found act (get_order order_id s).0

get_shipment_found : Actor → Result ShipmentRecord → Reply
get_shipment_found act (err e) = handle_commerce_error e
get_shipment_found act (ok shipment) =
    if is_foreign act shipment.merchant_id
    then forbidden "The caller cannot access this shipment."
    else shipment_found 200 shipment

unfoldable pub get_shipment_as : Actor → String → MemoryStore → Reply
unfolding get_shipment_found
get_shipment_as act shipment_id s = get_shipment_found act (get_shipment shipment_id s).0

-- The three fields are reported together when any of them is blank.
abbrev cancel_fields : List FieldError
cancel_fields =
    record { name = "reason"; issue = "is required" }
    ∷ record { name = "requested_by.type"; issue = "is required" }
    ∷ record { name = "requested_by.id"; issue = "is required" }
    ∷ []

cancelled_reply : Result Order → Reply
cancelled_reply (err e) = handle_commerce_error e
cancelled_reply (ok order) = accepted 202 false (record {
  order_id = order.order_id;
  merchant_id = order.merchant_id;
  status = order.status;
  accepted_at = order.updated_at;
})

cancel_found :
    Actor → Draw → String → String → AuditActor → Result Order → MemoryStore → Reply × MemoryStore
unfolding cancelled_reply
cancel_found act d order_id correlation_id request (err e) s = (handle_commerce_error e, s)
cancel_found act d order_id correlation_id request (ok order) s =
    let (r, t) = Service.cancel_order d order_id correlation_id request s in
    if is_foreign act order.merchant_id
    then (forbidden "The caller cannot access this order.", s)
    else (cancelled_reply r, t)

-- `cancelOrder` after the authentication.
unfoldable pub cancel_order_as :
    Actor → Draw → String → String → Decoded AuditActor → MemoryStore → Reply × MemoryStore
unfolding cancel_found
cancel_order_as act d order_id correlation_id too_large s = (undecodable true, s)
cancel_order_as act d order_id correlation_id malformed s = (undecodable false, s)
cancel_order_as act d order_id correlation_id (body request) s =
    if is_blank request.reason || is_blank request.type || is_blank request.id
    then (
      write_error 422 "validation_failed" "Request body contains invalid fields." false
          cancel_fields,
      s,
    )
    else cancel_found act d order_id correlation_id request (get_order order_id s).0 s

created_reply : Result (Option Order × Bool) → Reply
created_reply (err e) = handle_commerce_error e
created_reply (ok (none, replayed)) = crashed
created_reply (ok (some order, replayed)) = accepted 202 replayed (record {
  order_id = order.order_id;
  merchant_id = order.merchant_id;
  status = order.status;
  accepted_at = order.created_at;
})

create_decoded :
    Hashing
    → Draw
    → String
    → String
    → String
    → Decoded CreateOrderCommand
    → MemoryStore
    → Reply × MemoryStore
unfolding created_reply
create_decoded h d merchant_id key correlation_id too_large s = (undecodable true, s)
create_decoded h d merchant_id key correlation_id malformed s = (undecodable false, s)
create_decoded h d merchant_id key correlation_id (body req) s =
    let (r, t) = Service.create_order h d merchant_id key correlation_id req s in
    (created_reply r, t)

-- `allowWrite` and what follows it.
create_allowed :
    Hashing
    → Draw
    → String
    → String
    → String
    → Decoded CreateOrderCommand
    → Allowance
    → MemoryStore
    → Reply × MemoryStore
unfolding create_decoded
create_allowed h d merchant_id key correlation_id req unavailable s =
    (write_error 503 "dependency_unavailable" "Rate limiter is unavailable." true [], s)
create_allowed h d merchant_id key correlation_id req exhausted s = (
  write_error 429 "rate_limited" "Too many order creation requests for this merchant." true [],
  s,
)
create_allowed h d merchant_id key correlation_id req unlimited s =
    create_decoded h d merchant_id key correlation_id req s
create_allowed h d merchant_id key correlation_id req allowed s =
    create_decoded h d merchant_id key correlation_id req s

create_authenticated :
    Hashing
    → Draw
    → Option String
    → String
    → String
    → Decoded CreateOrderCommand
    → (String → Allowance)
    → MemoryStore
    → Reply × MemoryStore
unfolding create_allowed
create_authenticated h d none key correlation_id req limiter s =
    (unauthorized "Merchant API key is missing or invalid.", s)
create_authenticated h d (some merchant_id) key correlation_id req limiter s =
    create_allowed h d merchant_id key correlation_id req
      (limiter ("merchant:" ++ (merchant_id ++ ":write"))) s

-- `createOrder` with `authenticateMerchant`: `api_keys` leads from a key to its merchant.
unfoldable pub create_order :
    Dict String
    → Hashing
    → Draw
    → String
    → String
    → String
    → Decoded CreateOrderCommand
    → (String → Allowance)
    → MemoryStore
    → Reply × MemoryStore
unfolding create_authenticated
create_order api_keys h d api_key key correlation_id req limiter s =
    create_authenticated h d (Dict.get api_keys api_key) key correlation_id req limiter s
