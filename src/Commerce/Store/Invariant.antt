-- ===== src/Commerce/Store/Invariant.antt =====
-- The two indexes of the memory store against its orders.
use fulfillhub_go_commerce_p.Prelude.{String, ◌≡◌, refl, sym, ◌∙◌, none, some, inl, inr, arith}
use fulfillhub_go_commerce_p.Dict
use fulfillhub_go_commerce_p.Dict.{get-put_cases, get-put_self, get-empty}
use fulfillhub_go_commerce_p.Commerce.Keys.{scoped_key}
use fulfillhub_go_commerce_p.Commerce.Model.{Order}
use fulfillhub_go_commerce_p.Commerce.Store.{MemoryStore, new_memory_store}
use fulfillhub_go_commerce_p.Commerce.Store.Move.{SameTerms}

abbrev pub external_ref : Order → String
external_ref o = scoped_key o.merchant_id o.external_order_id

-- An index entry leads to an order that it was made for.
abbrev pub External : MemoryStore → String → String → Type 0
External s ref id = (o : Order) × (Dict.get s.orders id ≡ some o) × (ref ≡ external_ref o)

abbrev pub Idempotent : MemoryStore → String → String → Type 0
Idempotent s ref id =
    (o : Order) × (key : String) × (Dict.get s.orders id ≡ some o)
    × (ref ≡ scoped_key o.merchant_id key)

pub record IsIndexed (s : MemoryStore) : Type 0 where
  pub keyed : (id : String) (o : Order) → Dict.get s.orders id ≡ some o → o.order_id ≡ id
  pub external : (ref id : String) → Dict.get s.orders_by_external ref ≡ some id → External s ref id
  pub listed :
      (id : String) (o : Order)
      → Dict.get s.orders id ≡ some o
      → Dict.get s.orders_by_external (external_ref o) ≡ some id
  pub idempotent :
      (ref id : String) → Dict.get s.orders_by_idempotency ref ≡ some id → Idempotent s ref id

pub new_memory_store-IsIndexed : IsIndexed new_memory_store
unfolding new_memory_store
new_memory_store-IsIndexed = record {
  keyed = λ id o h. cc (get-empty {V = Order} id);
  external = λ ref id h. cc (get-empty {V = String} ref);
  listed = λ id o h. cc (get-empty {V = Order} id);
  idempotent = λ ref id h. cc (get-empty {V = String} ref);
}

-- Writing back an order with the same terms keeps each entry's order in place.
module _ (s : MemoryStore) (id : String) (old new : Order) (found : Dict.get s.orders id ≡ some old)
    (terms : SameTerms old new) where
  abbrev pub after : MemoryStore
  after = record s { orders = Dict.put s.orders id new }

  -- The order under any key keeps its identity.
  pub kept :
      (j : String) (o : Order)
      → Dict.get s.orders j ≡ some o
      → (p : Order) × (Dict.get (Dict.put s.orders id new) j ≡ some p)
        × (p.order_id ≡ o.order_id)
        × (p.merchant_id ≡ o.merchant_id)
        × (p.external_order_id ≡ o.external_order_id)
  kept j o h = elim (get-put_cases s.orders id j new) [
    | inl (hit, e) ↦ (new, e, ground (arith, terms), ground (arith, terms), ground (arith, terms))
    | inr (miss, e) ↦ (o, e ∙ h, refl, refl, refl)
  ]

  pub advance-IsIndexed : IsIndexed s → IsIndexed after
  advance-IsIndexed v = record {
    keyed = λ j o h. elim (get-put_cases s.orders id j new) [
      | inl (hit, e) ↦ ground (arith, e, h, hit, terms, v.keyed id old found)
      | inr (miss, e) ↦ v.keyed j o (sym e ∙ h)
    ];
    external = λ ref j h.
        let (o, g, r) = v.external ref j h in
        let (p, pg, i, m, x) = kept j o g in (p, pg, rw (m, x) r);
    listed = λ j o h. elim (get-put_cases s.orders id j new) [
      | inl (hit, e) ↦
          let same : o ≡ new = cc (e, h) in
          rw (same, terms.merchant_id, terms.external_order_id, ← hit) (v.listed id old found)
      | inr (miss, e) ↦ v.listed j o (sym e ∙ h)
    ];
    idempotent = λ ref j h.
        let (o, key, g, r) = v.idempotent ref j h in
        let (p, pg, i, m, x) = kept j o g in (p, key, pg, rw m r);
  }

-- A new order enters under a fresh identifier and two free references.
module _ (s : MemoryStore) (key : String) (order : Order)
    (fresh : Dict.get s.orders order.order_id ≡ none)
    (free : Dict.get s.orders_by_external (external_ref order) ≡ none) where
  abbrev pub inserted : MemoryStore
  inserted = record s {
    orders = Dict.put s.orders order.order_id order;
    orders_by_external = Dict.put s.orders_by_external (external_ref order) order.order_id;
    orders_by_idempotency =
        Dict.put s.orders_by_idempotency (scoped_key order.merchant_id key) order.order_id;
  }

  old_orders_stay :
      (j : String) (o : Order)
      → Dict.get s.orders j ≡ some o
      → Dict.get (Dict.put s.orders order.order_id order) j ≡ some o
  old_orders_stay j o h = elim (get-put_cases s.orders order.order_id j order) [
    | inl (hit, e) ↦ ground (arith, hit, fresh, h)
    | inr (miss, e) ↦ e ∙ h
  ]

  pub insert-IsIndexed : IsIndexed s → IsIndexed inserted
  insert-IsIndexed v = record {
    keyed = λ j o h. elim (get-put_cases s.orders order.order_id j order) [
      | inl (hit, e) ↦ ground (arith, e, h, hit)
      | inr (miss, e) ↦ v.keyed j o (sym e ∙ h)
    ];
    external = λ ref j h.
        elim (get-put_cases s.orders_by_external (external_ref order) ref order.order_id) [
          | inl (hit, e) ↦
              let at : order.order_id ≡ j = cc (e, h) in
              (order, rw (← at) (get-put_self s.orders order.order_id order), sym hit)
          | inr (miss, e) ↦
              let (o, g, r) = v.external ref j (sym e ∙ h) in (o, old_orders_stay j o g, r)
        ];
    listed = λ j o h. elim (get-put_cases s.orders order.order_id j order) [
      | inl (hit, e) ↦
          let same : o ≡ order = cc (e, h) in
          rw (same, ← hit) (get-put_self s.orders_by_external (external_ref order) order.order_id)
      | inr (miss, e) ↦
          let at = v.listed j o (sym e ∙ h) in
          elim (get-put_cases s.orders_by_external (external_ref order) (external_ref o)
            order.order_id) [
              | inl (clash, c) ↦ absurd (cc (free, at, clash))
              | inr (apart, c) ↦ c ∙ at
            ]
    ];
    idempotent = λ ref j h.
        elim (get-put_cases s.orders_by_idempotency (scoped_key order.merchant_id key) ref
          order.order_id) [
            | inl (hit, e) ↦
                let at : order.order_id ≡ j = cc (e, h) in
                (order, key, rw (← at) (get-put_self s.orders order.order_id order), sym hit)
            | inr (miss, e) ↦
                let (o, k, g, r) = v.idempotent ref j (sym e ∙ h) in
                (o, k, old_orders_stay j o g, r)
          ];
  }
