-- ===== src/Commerce/Contract.antt =====
-- What `Store` of internal/commerce/store.go, `Projector` of internal/fulfillment/handlers.go and the
-- relay's `OutboxSource` promise of the methods that write, whatever keeps the orders: the status that
-- each order gets, and the outbox events and audit records that are appended. Nothing else of a store
-- is seen.
pub mod Moves
pub mod Memory
use fulfillhub_go_commerce_p.Prelude.{
  String, ◌≡◌, refl, ap, ◌∙◌, Bool, List, [], ◌∷◌, ◌++◌, Option, none, some, str_eq, if◌then◌else◌,
  ◌⊎◌,
}
use fulfillhub_go_commerce_p.Commerce.Status.{OrderStatus, validate_order_transition}
use fulfillhub_go_commerce_p.Commerce.Event.{OutboxEvent, AuditLog}
use fulfillhub_go_commerce_p.Commerce.Event.Message.{Message, message}
use fulfillhub_go_commerce_p.Commerce.Store.History.{
  Call, inserts, updates, inventory_reserves, inventory_rejects, payment_authorizes, payment_fails,
  shipment_creates, shipment_fails, order_cancels, notification_queues, compensates, claims,
  publishes,
}

pub record View : Type 0 where
  pub status : String → Option OrderStatus
  pub outbox : List Message
  pub audits : List AuditLog

-- What becomes of the statuses: `created` is a new order, `checked` has passed the state machine, and `moved` is done.
pub data Target : Type 0 where
  untouched : Target
  created checked moved : String → OrderStatus → Target

pub record Effect : Type 0 where
  pub target : Target
  pub messages : List Message
  pub audits : List AuditLog

abbrev pub IsLegal : View → String → OrderStatus → Type 0
IsLegal v id status =
    (s : OrderStatus) × (v.status id ≡ some s) × (validate_order_transition s status ≡ none)

abbrev pub set_status : String → OrderStatus → View → String → Option OrderStatus
set_status id status v j = if str_eq id j then some status else v.status j

abbrev pub IsReached : Target → View → View → Type 0
IsReached untouched v w = (j : String) → w.status j ≡ v.status j
IsReached (created id status) v w = (j : String) → w.status j ≡ set_status id status v j
IsReached (checked id status) v w = IsLegal v id status × ((j : String) → w.status j ≡ v.status j)
IsReached (moved id status) v w =
    IsLegal v id status × ((j : String) → w.status j ≡ set_status id status v j)

pub record Fulfils (e : Effect) (v w : View) : Type 0 where
  pub target : IsReached e.target v w
  pub outbox : w.outbox ≡ v.outbox ++ e.messages
  pub audits : w.audits ≡ v.audits ++ e.audits

abbrev pub moves : String → OrderStatus → OutboxEvent → AuditLog → Effect
moves id status event audit = record {
  target = moved id status;
  messages = message event ∷ [];
  audits = audit ∷ [];
}

abbrev pub reports : OutboxEvent → AuditLog → Effect
reports event audit = record {
  target = untouched;
  messages = message event ∷ [];
  audits = audit ∷ [];
}

abbrev pub nothing : Effect
nothing = record { target = untouched; messages = []; audits = [] }

-- What each method does where it does something.
unfoldable pub effect : Call → Effect
effect (inserts merchant_id key order event audit) = record {
  target = created order.order_id order.status;
  messages = message event ∷ [];
  audits = audit ∷ [];
}
effect (updates id status now event audit) = moves id status event audit
effect (inventory_reserves source next audit) =
    moves source.order_id OrderStatus.inventory_reserved next audit
effect (inventory_rejects source next audit) = reports next audit
effect (payment_authorizes source next payment audit) =
    moves source.order_id OrderStatus.payment_authorized next audit
effect (payment_fails source next audit) = reports next audit
effect (shipment_creates source next shipment audit) =
    moves source.order_id OrderStatus.shipment_created next audit
effect (shipment_fails source next audit) = reports next audit
effect (order_cancels source next audit) = moves source.order_id OrderStatus.cancelled next audit
effect (notification_queues source audit) = record nothing { audits = audit ∷ [] }
effect (compensates source status audit) = record {
  target = moved source.order_id status;
  messages = [];
  audits = audit ∷ [];
}
effect (claims now limit) = nothing
effect (publishes message_id at) = nothing

-- An insertion changes nothing, as a replay does, or has its effect. Which of the two is not said: the
-- view does not show the idempotency keys that decide it.
abbrev pub IsPromised : Call → View → View → Type 0
IsPromised (inserts merchant_id key order event audit) v w =
    Fulfils nothing v w ⊎ Fulfils (effect (inserts merchant_id key order event audit)) v w
IsPromised c v w = Fulfils (effect c) v w
