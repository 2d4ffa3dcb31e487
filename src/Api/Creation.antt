-- ===== src/Api/Creation.antt =====
-- What the creation handler leaves in the store.
use fulfillhub_go_commerce_p.Prelude.{
  ℕ, String, ◌≡◌, sym, ◌∙◌, ap, inl, inr, Bool, false, Option, none, some, arith, Option-cases,
}
use fulfillhub_go_commerce_p.Dict
use fulfillhub_go_commerce_p.Dict.{Dict}
use fulfillhub_go_commerce_p.Commerce.Model.{Order, CreateOrderCommand}
use fulfillhub_go_commerce_p.Commerce.Result.{Error, Result, ok, err}
use fulfillhub_go_commerce_p.Commerce.Store.{MemoryStore}
use fulfillhub_go_commerce_p.Commerce.Service.{Hashing, Draw, new_order}
use fulfillhub_go_commerce_p.Commerce.Service
use fulfillhub_go_commerce_p.Commerce.Service.Replay.{created_inserts, insert_order-Indexed}
use fulfillhub_go_commerce_p.Commerce.Service.Totals.{created_order}
use fulfillhub_go_commerce_p.Api.{
  Reply, accepted, Accepted, Decoded, body, too_large, malformed, Allowance, unlimited, allowed,
  exhausted, unavailable, handle_commerce_error, created_reply, create_decoded, create_allowed,
  create_authenticated, create_order, unauthorized,
}

error_not_accepted :
    (e : Error) (n : ℕ) (b : Bool) (a : Accepted) → handle_commerce_error e ≡ accepted n b a → ⊥
unfolding handle_commerce_error
error_not_accepted e n b a h = ground (arith, h)

created_reply-accepted :
    (r : Result (Option Order × Bool)) (n : ℕ) (b : Bool) (a : Accepted)
    → created_reply r ≡ accepted n b a
    → (order : Order) × (r ≡ ok (some order, b))
      × (a.order_id ≡ order.order_id)
      × (a.merchant_id ≡ order.merchant_id)
unfolding created_reply
created_reply-accepted (err e) n b a h = absurd (error_not_accepted e n b a h)
created_reply-accepted (ok (none, replayed)) n b a h = absurd (cc h)
created_reply-accepted (ok (some order, replayed)) n b a h = (order, cc h, cc h, cc h)

-- A new order in the store that belongs to the merchant.
abbrev pub BelongsTo : MemoryStore → Accepted → String → Type 0
BelongsTo t a merchant_id =
    (o : Order) × (Dict.get t.orders a.order_id ≡ some o)
    × (o.order_id ≡ a.order_id)
    × (o.merchant_id ≡ merchant_id)
    × (a.merchant_id ≡ merchant_id)

module _ (h : Hashing) (d : Draw) (merchant_id key correlation_id : String) (n : ℕ) (a : Accepted)
    (s t : MemoryStore) where
  decoded_belongs :
      (req : Decoded CreateOrderCommand)
      → create_decoded h d merchant_id key correlation_id req s ≡ (accepted n false a, t)
      → BelongsTo t a merchant_id
  unfolding create_decoded new_order
  decoded_belongs too_large e = absurd (cc e)
  decoded_belongs malformed e = absurd (cc e)
  decoded_belongs (body req) e =
      let made = Service.create_order h d merchant_id key correlation_id req s in
      let (order, result, id, merchant) =
        created_reply-accepted made.0 n false a (ap (λ (x : Reply × MemoryStore). x.0) e) in
      let after : made.1 ≡ t = ap (λ (x : Reply × MemoryStore). x.1) e in
      let created : made ≡ (ok (some order, false), t) = cc (result, after) in
      let (event, audit, inserted) =
        created_inserts h d merchant_id key correlation_id req s t (some order, false) created in
      let same = created_order merchant_id key _ event audit s t order inserted in
      let stored = insert_order-Indexed merchant_id key _ event audit s t order inserted in
      let own : order.merchant_id ≡ merchant_id = ap (λ (o : Order). o.merchant_id) same in
      (order, ap (Dict.get t.orders) id ∙ stored.1, sym id, own, merchant ∙ own)

  allowed_belongs :
      (req : Decoded CreateOrderCommand) (allowance : Allowance)
      → create_allowed h d merchant_id key correlation_id req allowance s ≡ (accepted n false a, t)
      → BelongsTo t a merchant_id
  unfolding create_allowed
  allowed_belongs req unavailable e = absurd (cc e)
  allowed_belongs req exhausted e = absurd (cc e)
  allowed_belongs req unlimited e = decoded_belongs req e
  allowed_belongs req allowed e = decoded_belongs req e

-- If `createOrder` accepts a request that is no replay, the request carries the API key of a
-- merchant, and the store has the answered order under its identifier, as an order of that merchant.
pub created_order_belongs :
    (api_keys : Dict String) (h : Hashing) (d : Draw) (api_key key correlation_id : String)
    (req : Decoded CreateOrderCommand) (limiter : String → Allowance) (s t : MemoryStore) (n : ℕ)
    (a : Accepted)
    → create_order api_keys h d api_key key correlation_id req limiter s ≡ (accepted n false a, t)
    → (merchant_id : String) × (Dict.get api_keys api_key ≡ some merchant_id)
      × BelongsTo t a merchant_id
unfolding create_order create_authenticated
created_order_belongs api_keys h d api_key key correlation_id req limiter s t n a e =
    elim (Option-cases (Dict.get api_keys api_key)) [
      | inl unknown ↦
          let refused : (unauthorized "Merchant API key is missing or invalid.", s)
              ≡ (accepted n false a, t) =
            (rw unknown at e) in
          absurd (cc refused)
      | inr (merchant_id, known) ↦ (
        merchant_id,
        known,
        allowed_belongs h d merchant_id key correlation_id n a s t req _ (rw known at e),
      )
    ]
