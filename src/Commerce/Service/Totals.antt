-- ===== src/Commerce/Service/Totals.antt =====
-- The amounts of a created order: `subtotal.Amount += int64(item.Quantity) * item.UnitPrice.Amount`
-- and the total of `CreateOrderContext`, against the sum over the natural numbers.
use fulfillhub_go_commerce_p.Prelude.{
  ℕ, ◌+◌, ◌*◌, ◌%◌, ◌<◌, leb, String, ◌≡◌, refl, ◌∙◌, false, List, [], ◌∷◌, some, arith,
  Option-cases, inl, inr,
}
use fulfillhub_go_commerce_p.Prelude.Int64.{Int64, add, mul, is_negative, modulus, sign_bit}
use fulfillhub_go_commerce_p.Dict
use fulfillhub_go_commerce_p.Commerce.Keys.{scoped_key}
use fulfillhub_go_commerce_p.Commerce.Model.{Order, OrderItemInput, CreateOrderCommand}
use fulfillhub_go_commerce_p.Commerce.Event.{OutboxEvent, AuditLog}
use fulfillhub_go_commerce_p.Commerce.Result.{ok}
use fulfillhub_go_commerce_p.Commerce.Store.{MemoryStore, insert_order}
use fulfillhub_go_commerce_p.Commerce.Service.{
  Hashing, Draw, subtotal_from, order_totals, new_order, create_order, shipping_amount,
}
use fulfillhub_go_commerce_p.Commerce.Service.Replay.{created_inserts}

-- The price of the items without wrap-around.
unfoldable pub gross : List OrderItemInput → ℕ
gross [] = 0
gross (item ∷ items) = item.quantity * item.unit_price.amount + gross items

wrap_step :
    (acc q g : ℕ) → (((acc + q % modulus) % modulus) + g) % modulus ≡ (acc + (q + g)) % modulus
wrap_step acc q g = omega arith

subtotal_from-gross :
    (items : List OrderItemInput) (acc : Int64)
    → acc < modulus
    → subtotal_from acc items ≡ (acc + gross items) % modulus
unfolding subtotal_from gross add mul
subtotal_from-gross [] acc h = omega arith
subtotal_from-gross (item ∷ items) acc h =
    subtotal_from-gross items ((acc + (item.quantity * item.unit_price.amount) % modulus) % modulus)
      (omega arith)
    ∙ wrap_step acc (item.quantity * item.unit_price.amount) (gross items)

total_wraps :
    (req : CreateOrderCommand)
    → (order_totals req).total.amount ≡ (gross req.items + shipping_amount) % modulus
unfolding order_totals add
total_wraps req = rw (subtotal_from-gross req.items 0 (omega arith)) (omega arith)

pub created_order :
    (merchant_id key : String) (o : Order) (event : OutboxEvent) (audit : AuditLog)
    (s t : MemoryStore) (order : Order)
    → insert_order merchant_id key o event audit s ≡ (ok (some order, false), t)
    → order ≡ o
unfolding insert_order
created_order merchant_id key o event audit s t order h =
    elim (Option-cases (Dict.get s.orders_by_idempotency (scoped_key merchant_id key))) [
      | inr (id, old) ↦ ground (arith, old, h)
      | inl new ↦
          elim (Option-cases
            (Dict.get s.orders_by_external (scoped_key merchant_id o.external_order_id))) [
              | inl free ↦ ground (arith, new, free, h)
              | inr (id, taken) ↦ ground (arith, new, taken, h)
            ]
    ]

-- A created order's total is the exact price of the items and the shipping where that is below
-- 2 ^ 64, and, read as a signed amount, it is negative exactly when the exact sum reaches 2 ^ 63.
pub created_total :
    (h : Hashing) (d : Draw) (merchant_id key correlation_id : String) (req : CreateOrderCommand)
    (s t : MemoryStore) (order : Order)
    → create_order h d merchant_id key correlation_id req s ≡ (ok (some order, false), t)
    → gross req.items + shipping_amount < modulus
    → (order.totals.total.amount ≡ gross req.items + shipping_amount)
      × (is_negative order.totals.total.amount ≡ leb sign_bit (gross req.items + shipping_amount))
unfolding new_order
created_total h d merchant_id key correlation_id req s t order created bound =
    let (event, audit, inserted) =
      created_inserts h d merchant_id key correlation_id req s t (some order, false) created in
    let same = created_order merchant_id key _ event audit s t order inserted in
    let exact : order.totals.total.amount ≡ gross req.items + shipping_amount =
      rw same (total_wraps req ∙ (omega arith)) in
    (exact, rw exact refl)
