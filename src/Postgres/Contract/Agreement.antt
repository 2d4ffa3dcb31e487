-- ===== src/Postgres/Contract/Agreement.antt =====
-- What follows from the contract: the two stores stay together, and a status moves along the lifecycle.
use fulfillhub_go_commerce_p.Prelude.{
  String, ◌≡◌, refl, sym, ap, ◌∙◌, ◌++◌, Option, some, none, Bool-cases, inl, inr, ◌⊎◌, str_eq,
  eq_iff, if◌then◌else◌,
}
use fulfillhub_go_commerce_p.Commerce.Status.{OrderStatus, validate_order_transition}
use fulfillhub_go_commerce_p.Commerce.Result.{ok}
use fulfillhub_go_commerce_p.Commerce.Store.{MemoryStore}
use fulfillhub_go_commerce_p.Commerce.Store.History.{
  Call, inserts, updates, inventory_reserves, inventory_rejects, payment_authorizes, payment_fails,
  shipment_creates, shipment_fails, order_cancels, notification_queues, compensates, claims,
  publishes,
}
use fulfillhub_go_commerce_p.Commerce.Store.History
use fulfillhub_go_commerce_p.Commerce.Contract.{
  View, Effect, Fulfils, Target, untouched, created, checked, moved, IsReached, IsPromised, effect,
}
use fulfillhub_go_commerce_p.Commerce.Contract.Memory.{memory_store-IsPromised}
use fulfillhub_go_commerce_p.Commerce.Contract.Moves.{memory_view}
use fulfillhub_go_commerce_p.Postgres.Tables.{Database}
use fulfillhub_go_commerce_p.Postgres.{Engine}
use fulfillhub_go_commerce_p.Postgres.Calls.{apply}
use fulfillhub_go_commerce_p.Postgres.Contract.{database_view}
use fulfillhub_go_commerce_p.Postgres.Contract.Calls.{postgres_store-IsPromised}

-- Two stores that show the same.
pub record Agrees (v w : View) : Type 0 where
  pub status : (id : String) → v.status id ≡ w.status id
  pub outbox : v.outbox ≡ w.outbox
  pub audits : v.audits ≡ w.audits

-- Every call but `InsertOrder`, whose replay each store decides from its own index.
abbrev pub IsMove : Call → Type 0
IsMove (inserts merchant_id key order event audit) = ⊥
IsMove c = Unit {0}

reached_status :
    (target : Target) (v w v' w' : View)
    → ((id : String) → v.status id ≡ w.status id)
    → IsReached target v v'
    → IsReached target w w'
    → (id : String) → v'.status id ≡ w'.status id
reached_status untouched v w v' w' same a b id = a id ∙ (same id ∙ sym (b id))
reached_status (created x s) v w v' w' same a b id =
    a id ∙ (ap (λ o. if str_eq x id then some s else o) (same id) ∙ sym (b id))
reached_status (checked x s) v w v' w' same a b id = a.1 id ∙ (same id ∙ sym (b.1 id))
reached_status (moved x s) v w v' w' same a b id =
    a.1 id ∙ (ap (λ o. if str_eq x id then some s else o) (same id) ∙ sym (b.1 id))

fulfilled-Agrees :
    (e : Effect) (v w v' w' : View) → Agrees v w → Fulfils e v v' → Fulfils e w w' → Agrees v' w'
fulfilled-Agrees e v w v' w' same a b = record {
  status = reached_status e.target v w v' w' same.status a.target b.target;
  outbox = a.outbox ∙ (ap (λ l. l ++ e.messages) same.outbox ∙ sym b.outbox);
  audits = a.audits ∙ (ap (λ l. l ++ e.audits) same.audits ∙ sym b.audits);
}

promised-Fulfils : (c : Call) → IsMove c → (v w : View) → IsPromised c v w → Fulfils (effect c) v w
promised-Fulfils (inserts merchant_id key order event audit) m v w p = elim m [ ]
promised-Fulfils (updates id status now event audit) m v w p = p
promised-Fulfils (inventory_reserves source next audit) m v w p = p
promised-Fulfils (inventory_rejects source next audit) m v w p = p
promised-Fulfils (payment_authorizes source next payment audit) m v w p = p
promised-Fulfils (payment_fails source next audit) m v w p = p
promised-Fulfils (shipment_creates source next shipment audit) m v w p = p
promised-Fulfils (shipment_fails source next audit) m v w p = p
promised-Fulfils (order_cancels source next audit) m v w p = p
promised-Fulfils (notification_queues source audit) m v w p = p
promised-Fulfils (compensates source status audit) m v w p = p
promised-Fulfils (claims now limit) m v w p = p
promised-Fulfils (publishes message_id at) m v w p = p

-- The same call, other than an insertion of an order, on a database and on a memory store that show the
-- same: where it succeeds on both, they show the same again.
pub stores_agree :
    (engine : Engine) (c : Call) (db t : Database) (s u : MemoryStore)
    → IsMove c
    → Agrees (database_view db) (memory_view s)
    → apply engine c db ≡ (ok tt, t)
    → History.apply c s ≡ (ok tt, u)
    → Agrees (database_view t) (memory_view u)
stores_agree engine c db t s u m same h k =
    fulfilled-Agrees (effect c) (database_view db) (memory_view s) (database_view t) (memory_view u)
      same (promised-Fulfils c m _ _ (postgres_store-IsPromised engine c db t h))
      (promised-Fulfils c m _ _ (memory_store-IsPromised c s u k))

-- A status stays, or goes where `ValidateOrderTransition` lets it.
abbrev pub IsLegalMove : Option OrderStatus → Option OrderStatus → Type 0
IsLegalMove before after =
    (after ≡ before)
    ⊎ ((s : OrderStatus) × (t : OrderStatus) × (before ≡ some s)
        × (after ≡ some t)
        × (validate_order_transition s t ≡ none))

moved-IsLegalMove :
    (x : String) (s : OrderStatus) (v w : View)
    → IsReached (moved x s) v w
    → (id : String) → IsLegalMove (v.status id) (w.status id)
moved-IsLegalMove x s v w ((from, here, legal), r) id = elim (Bool-cases (str_eq x id)) [
  | inl same ↦
      inr (from, s, ap v.status (sym ((eq_iff x id).0 same)) ∙ here, r id ∙ rw same refl, legal)
  | inr other ↦ inl (r id ∙ rw other refl)
]

effect-IsLegalMove :
    (c : Call) (v w : View)
    → IsMove c
    → Fulfils (effect c) v w
    → (id : String) → IsLegalMove (v.status id) (w.status id)
unfolding effect
effect-IsLegalMove (inserts merchant_id key order event audit) v w m f id = elim m [ ]
effect-IsLegalMove (updates x status now event audit) v w m f id =
    moved-IsLegalMove _ _ v w f.target id
effect-IsLegalMove (inventory_reserves source next audit) v w m f id =
    moved-IsLegalMove _ _ v w f.target id
effect-IsLegalMove (inventory_rejects source next audit) v w m f id = inl (f.target id)
effect-IsLegalMove (payment_authorizes source next payment audit) v w m f id =
    moved-IsLegalMove _ _ v w f.target id
effect-IsLegalMove (payment_fails source next audit) v w m f id = inl (f.target id)
effect-IsLegalMove (shipment_creates source next shipment audit) v w m f id =
    moved-IsLegalMove _ _ v w f.target id
effect-IsLegalMove (shipment_fails source next audit) v w m f id = inl (f.target id)
effect-IsLegalMove (order_cancels source next audit) v w m f id =
    moved-IsLegalMove _ _ v w f.target id
effect-IsLegalMove (notification_queues source audit) v w m f id = inl (f.target id)
effect-IsLegalMove (compensates source status audit) v w m f id =
    moved-IsLegalMove _ _ v w f.target id
effect-IsLegalMove (claims now limit) v w m f id = inl (f.target id)
effect-IsLegalMove (publishes message_id at) v w m f id = inl (f.target id)

-- No call but an insertion gives an order a status that the state machine refuses.
pub successful_move-IsLegalMove :
    (engine : Engine) (c : Call) (db t : Database)
    → IsMove c
    → apply engine c db ≡ (ok tt, t)
    → (id : String) → IsLegalMove ((database_view db).status id) ((database_view t).status id)
successful_move-IsLegalMove engine c db t m h =
    effect-IsLegalMove c (database_view db) (database_view t) m
      (promised-Fulfils c m _ _ (postgres_store-IsPromised engine c db t h))
