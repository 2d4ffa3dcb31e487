-- ===== src/Api/Tenancy.antt =====
-- What the handlers let a caller see and change.
use fulfillhub_go_commerce_p.Prelude.{
  ℕ, String, ◌≡◌, refl, ◌⊎◌, inl, inr, true, false, ◌||◌, some, arith, eq_iff, Bool-cases,
  Option-cases,
}
use fulfillhub_go_commerce_p.Prelude.Text.{is_blank}
use fulfillhub_go_commerce_p.Dict
use fulfillhub_go_commerce_p.Commerce.Model.{Order}
use fulfillhub_go_commerce_p.Commerce.Event.{AuditActor}
use fulfillhub_go_commerce_p.Commerce.Result.{Error, not_found}
use fulfillhub_go_commerce_p.Commerce.Store.{MemoryStore, get_order, find_order}
use fulfillhub_go_commerce_p.Commerce.Service.{Draw}
use fulfillhub_go_commerce_p.Api.{
  Actor, order_found, Decoded, body, too_large, malformed, get_order_as, cancel_order_as,
  is_foreign, handle_commerce_error, forbidden, cancel_found,
}

-- The caller is an operator or the merchant of the order.
abbrev pub Owns : Actor → Order → Type 0
Owns act order = (act.ops ≡ true) ⊎ (act.merchant_id ≡ order.merchant_id)

not_foreign :
    (act : Actor) (order : Order) → is_foreign act order.merchant_id ≡ false → Owns act order
not_foreign act order h = elim (Bool-cases act.ops) [
  | inl operator ↦ inl operator
  | inr merchant ↦ inr (ground (arith, h, merchant, eq_iff act.merchant_id order.merchant_id))
]

error_not_order : (e : Error) (n : ℕ) (o : Order) → handle_commerce_error e ≡ order_found n o → ⊥
unfolding handle_commerce_error
error_not_order e n o h = ground (arith, h)

forbidden_not_order :
    (n : ℕ) (o : Order) → forbidden "The caller cannot access this order." ≡ order_found n o → ⊥
forbidden_not_order n o h = cc h

-- A caller that is shown an order is an operator or the merchant of that order, and it is the order
-- that the store has under the identifier asked for.
pub shown_order_owned :
    (act : Actor) (id : String) (s : MemoryStore) (n : ℕ) (o : Order)
    → get_order_as act id s ≡ order_found n o
    → Owns act o × (Dict.get s.orders id ≡ some o)
unfolding get_order_as get_order find_order
shown_order_owned act id s n o h = elim (Option-cases (Dict.get s.orders id)) [
  | inl missing ↦ absurd (error_not_order not_found n o (rw missing at h))
  | inr (p, found) ↦ elim (Bool-cases (is_foreign act p.merchant_id)) [
    | inl foreign ↦ absurd (forbidden_not_order n o (rw (found, foreign) at h))
    | inr own ↦
        let shown : order_found 200 p ≡ order_found n o = (rw (found, own) at h) in
        let same : p ≡ o = cc shown in rw (← same) (not_foreign act p own, found)
  ]
]

-- A cancellation request that changes the store comes from an operator or from the merchant of the
-- stored order that it names.
pub cancelling_caller-Owns :
    (act : Actor) (d : Draw) (id correlation_id : String) (request : Decoded AuditActor)
    (s : MemoryStore)
    → ((cancel_order_as act d id correlation_id request s).1 ≡ s)
      ⊎ ((o : Order) × (Dict.get s.orders id ≡ some o) × Owns act o)
unfolding cancel_order_as cancel_found get_order find_order
cancelling_caller-Owns act d id correlation_id too_large s = inl refl
cancelling_caller-Owns act d id correlation_id malformed s = inl refl
cancelling_caller-Owns act d id correlation_id (body request) s =
    elim (Bool-cases (is_blank request.reason || is_blank request.type || is_blank request.id)) [
      | inl blank ↦ inl (rw blank refl)
      | inr complete ↦ elim (Option-cases (Dict.get s.orders id)) [
        | inl missing ↦ inl (rw complete (rw missing refl))
        | inr (p, found) ↦ elim (Bool-cases (is_foreign act p.merchant_id)) [
          | inl foreign ↦ inl (rw complete (rw found (rw foreign refl)))
          | inr own ↦ inr (p, found, not_foreign act p own)
        ]
      ]
    ]
