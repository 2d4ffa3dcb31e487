-- ===== src/Commerce/Service/Replay.antt =====
-- The idempotency key of `CreateOrderContext`, across any later history of the store.
use fulfillhub_go_commerce_p.Prelude.{
  String, ◌≡◌, refl, List, [], ◌∷◌, Option, none, some, Bool, true, false, inl, inr, arith,
  Option-cases, ◌⊎◌,
}
use fulfillhub_go_commerce_p.Dict
use fulfillhub_go_commerce_p.Dict.{get-put_self}
use fulfillhub_go_commerce_p.Commerce.Keys.{scoped_key}
use fulfillhub_go_commerce_p.Commerce.Status.Lifecycle.{◌⟶*◌}
use fulfillhub_go_commerce_p.Commerce.Model.{Order, CreateOrderCommand}
use fulfillhub_go_commerce_p.Commerce.Event.{OutboxEvent, AuditLog}
use fulfillhub_go_commerce_p.Commerce.Result.{ok}
use fulfillhub_go_commerce_p.Commerce.Validation.{validate_create_order}
use fulfillhub_go_commerce_p.Commerce.Store.{
  MemoryStore, insert_order, append_audit, append_outbox_event,
}
use fulfillhub_go_commerce_p.Commerce.Store.Move.{SameTerms}
use fulfillhub_go_commerce_p.Commerce.Store.History.{Call, run, AllDrawn}
use fulfillhub_go_commerce_p.Commerce.Store.History.Orders.{run-Later}
use fulfillhub_go_commerce_p.Commerce.Store.History.Indexes.{run_entry}
use fulfillhub_go_commerce_p.Commerce.Service.{
  Hashing, Draw, new_order, create_order, reject_invalid,
}

-- What a first insertion leaves behind.
abbrev pub Indexed : MemoryStore → String → Order → Type 0
Indexed t ref order =
    (Dict.get t.orders_by_idempotency ref ≡ some order.order_id)
    × (Dict.get t.orders order.order_id ≡ some order)

module _ (merchant_id key : String) (o : Order) (event : OutboxEvent) (audit : AuditLog)
    (s t : MemoryStore) (order : Order) where
  free_Indexed :
      Dict.get s.orders_by_idempotency (scoped_key merchant_id key) ≡ none
      → insert_order merchant_id key o event audit s ≡ (ok (some order, false), t)
      → Indexed t (scoped_key merchant_id key) order
  unfolding insert_order append_audit append_outbox_event
  free_Indexed new h =
      elim (Option-cases
        (Dict.get s.orders_by_external (scoped_key merchant_id o.external_order_id))) [
          | inl free ↦ ground (
            arith,
            new,
            free,
            h,
            get-put_self s.orders o.order_id o,
            get-put_self s.orders_by_idempotency (scoped_key merchant_id key) o.order_id,
          )
          | inr (id, taken) ↦ ground (arith, new, taken, h)
        ]

  pub insert_order-Indexed :
      insert_order merchant_id key o event audit s ≡ (ok (some order, false), t)
      → Indexed t (scoped_key merchant_id key) order
  unfolding insert_order
  insert_order-Indexed h =
      elim (Option-cases (Dict.get s.orders_by_idempotency (scoped_key merchant_id key))) [
        | inl new ↦ free_Indexed new h
        | inr (id, old) ↦ ground (arith, old, h)
      ]

List-cases {ℓ} : {A : Type ℓ} (l : List A) → (l ≡ []) ⊎ ((x : A) × (xs : List A) × (l ≡ x ∷ xs))
List-cases [] = inl refl
List-cases (x ∷ xs) = inr (x, xs, refl)

module _ (h : Hashing) (d : Draw) (merchant_id key correlation_id : String) where
  -- A request that succeeds has passed the validation and is an insertion.
  pub created_inserts :
      (req : CreateOrderCommand) (s t : MemoryStore) (r : Option Order × Bool)
      → create_order h d merchant_id key correlation_id req s ≡ (ok r, t)
      → (event : OutboxEvent) × (audit : AuditLog) × (insert_order merchant_id key
            (new_order h d merchant_id req)
            event
            audit
            s
          ≡ (ok r, t))
  unfolding create_order
  created_inserts req s t r e = elim (List-cases (validate_create_order merchant_id key req)) [
    | inl valid ↦ (_, _, (rw (valid, reject_invalid) at e))
    | inr (f, fs, invalid) ↦ absurd (cc (rw (invalid, reject_invalid) at e))
  ]

  -- A valid request under a key that leads to a stored order replays that order.
  known_key_replays :
      (req : CreateOrderCommand) (s : MemoryStore) (id : String) (p : Order)
      → validate_create_order merchant_id key req ≡ []
      → Dict.get s.orders_by_idempotency (scoped_key merchant_id key) ≡ some id
      → Dict.get s.orders id ≡ some p
      → create_order h d merchant_id key correlation_id req s ≡ (ok (some p, true), s)
  unfolding create_order insert_order
  known_key_replays req s id p valid entry found =
      rw (valid, reject_invalid) (rw (entry, insert_order) (rw found))

-- Once a request has created an order, any later valid request of the merchant under the same
-- idempotency key returns that order as a replay and changes nothing, whatever its body and whatever
-- calls the store had in between, if their insertions bring orders with fresh identifiers for the
-- calling merchant: the order with the terms of its creation, at a status that the lifecycle leads to.
pub created_order_replays :
    (h : Hashing) (d : Draw) (merchant_id key correlation_id : String) (req : CreateOrderCommand)
    (s t : MemoryStore) (order : Order) (cs : List Call) (later : Draw) (correlation_id' : String)
    (req' : CreateOrderCommand)
    → create_order h d merchant_id key correlation_id req s ≡ (ok (some order, false), t)
    → AllDrawn t cs
    → validate_create_order merchant_id key req' ≡ []
    → (p : Order) × (create_order h later merchant_id key correlation_id' req' (run t cs)
        ≡ (ok (some p, true), run t cs))
      × SameTerms order p
      × (order.status ⟶* p.status)
created_order_replays h d merchant_id key correlation_id req s t order cs later correlation_id' req'
      created drawn valid =
    let (event, audit, inserted) =
      created_inserts h d merchant_id key correlation_id req s t (some order, false) created in
    let (entry, found) = insert_order-Indexed merchant_id key _ event audit s t order inserted in
    let (p, now, terms, path) = run-Later t cs drawn order.order_id order found in
    (
      p,
      known_key_replays h later merchant_id key correlation_id' req' (run t cs) order.order_id p
          valid (run_entry t cs _ _ entry) now,
      terms,
      path,
    )
