-- ===== src/Commerce/Store/Counts.antt =====
-- internal/commerce/store.go: `OrderStatusCounts`. The map of counts is a function, `none` where the
-- key is missing.
use fulfillhub_go_commerce_p.Prelude.{
  ℕ, suc, ◌+◌, ◌≡◌, refl, ◌∙◌, ap, true, List, [], ◌∷◌, Option, none, some, if◌then◌else◌, get_or,
  Bool-cases, inl, inr, arith,
}
use fulfillhub_go_commerce_p.Dict
use fulfillhub_go_commerce_p.Commerce.Status.{OrderStatus, status_eq, is_valid_order_status}
use fulfillhub_go_commerce_p.Commerce.Model.{Order}
use fulfillhub_go_commerce_p.Commerce.Store.{MemoryStore}

abbrev pub Counts : Type 0
Counts = OrderStatus → Option ℕ

no_orders : Counts
no_orders status = if is_valid_order_status status then some 0 else none

-- `counts[status]++`
increment : Counts → OrderStatus → Counts
increment counts status key =
    if status_eq status key then some (suc (get_or (counts key) 0)) else counts key

count_orders : Counts → List Order → Counts
unfolding increment
count_orders counts [] = counts
count_orders counts (order ∷ orders) = count_orders (increment counts order.status) orders

unfoldable pub order_status_counts : MemoryStore → Counts
unfolding no_orders count_orders
order_status_counts s = count_orders no_orders (Dict.values s.orders)

-- The number of orders at a status.
unfoldable pub orders_at : OrderStatus → List Order → ℕ
orders_at status [] = 0
orders_at status (order ∷ orders) =
    let rest = orders_at status orders in if status_eq order.status status then suc rest else rest

count_orders-orders_at :
    (status : OrderStatus) (orders : List Order) (counts : Counts) (n : ℕ)
    → counts status ≡ some n
    → count_orders counts orders status ≡ some (n + orders_at status orders)
unfolding count_orders orders_at increment
count_orders-orders_at status [] counts n h = h ∙ ap some (omega arith)
count_orders-orders_at status (order ∷ orders) counts n h =
    elim (Bool-cases (status_eq order.status status)) [
      | inl same ↦ rw same (
          count_orders-orders_at status orders (increment counts order.status) (suc n)
            (rw same (rw h refl))
          ∙ ap some (omega arith))
      | inr differs ↦
          rw differs
            (count_orders-orders_at status orders (increment counts order.status) n (rw differs h))
    ]

-- For each of the nine statuses the count is the number of stored orders at that status, also when
-- there are none.
pub order_status_counts-orders_at :
    (s : MemoryStore) (status : OrderStatus)
    → is_valid_order_status status ≡ true
    → order_status_counts s status ≡ some (orders_at status (Dict.values s.orders))
unfolding order_status_counts no_orders
order_status_counts-orders_at s status known =
    count_orders-orders_at status (Dict.values s.orders) no_orders 0 (rw known refl)
    ∙ ap some (omega arith)
