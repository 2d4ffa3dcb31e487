-- ===== src/Commerce/Store/History/Indexes.antt =====
-- The indexes of the memory store along a history.
use fulfillhub_go_commerce_p.Prelude.{
  String, ◌≡◌, refl, sym, ◌∙◌, subst, List, [], ◌∷◌, some, inl, inr,
}
use fulfillhub_go_commerce_p.Dict
use fulfillhub_go_commerce_p.Dict.{Dict, get-put_cases}
use fulfillhub_go_commerce_p.Commerce.Keys.{scoped_key}
use fulfillhub_go_commerce_p.Commerce.Model.{Order}
use fulfillhub_go_commerce_p.Commerce.Store.{MemoryStore, new_memory_store}
use fulfillhub_go_commerce_p.Commerce.Store.Invariant.{
  IsIndexed, new_memory_store-IsIndexed, advance-IsIndexed, insert-IsIndexed,
}
use fulfillhub_go_commerce_p.Commerce.Store.Move.{Move, stay, insert, advance, note, relay}
use fulfillhub_go_commerce_p.Commerce.Store.History.{Call, step, run, AllDrawn, step-Move}

-- The invariant reads three maps of the store.
same_maps :
    {s : MemoryStore} (t : MemoryStore)
    → t.orders ≡ s.orders
    → t.orders_by_external ≡ s.orders_by_external
    → t.orders_by_idempotency ≡ s.orders_by_idempotency
    → IsIndexed s
    → IsIndexed t
same_maps t a b c v = record {
  keyed = rw a v.keyed;
  external = rw (a, b) v.external;
  listed = rw (a, b) v.listed;
  idempotent = rw (a, c) v.idempotent;
}

Move-IsIndexed : {D : Type 0} {s t : MemoryStore} → D → Move D s t → IsIndexed s → IsIndexed t
Move-IsIndexed d (stay e) v = subst IsIndexed (sym e) v
Move-IsIndexed {s = s} d (insert merchant_id key order event audit drawn new free e) v =
    subst IsIndexed (sym e) (
      rw (← (drawn d).1) (
        same_maps _ refl refl refl
          (insert-IsIndexed s key order (drawn d).0 (rw (drawn d).1 free) v)))
Move-IsIndexed {s = s} d (advance id old new events audit found terms legal e) v =
    subst IsIndexed (sym e)
      (same_maps _ refl refl refl (advance-IsIndexed s id old new found terms v))
Move-IsIndexed d (note audit e) v = subst IsIndexed (sym e) (same_maps _ refl refl refl v)
Move-IsIndexed d (relay d' published claimed e) v =
    subst IsIndexed (sym e) (same_maps _ refl refl refl v)

run_from-IsIndexed :
    (s : MemoryStore) (cs : List Call) → AllDrawn s cs → IsIndexed s → IsIndexed (run s cs)
unfolding run
run_from-IsIndexed s [] d v = v
run_from-IsIndexed s (c ∷ cs) d v =
    run_from-IsIndexed (step s c) cs d.1 (Move-IsIndexed d.0 (step-Move s c) v)

-- After any history from the empty store whose insertions bring orders with fresh identifiers for the
-- calling merchant, each order lies under its identifier and is listed under its merchant and external identifier, and each entry of
-- the two indexes leads to a stored order that it was made for.
pub run-IsIndexed :
    (cs : List Call) → AllDrawn new_memory_store cs → IsIndexed (run new_memory_store cs)
run-IsIndexed cs d = run_from-IsIndexed new_memory_store cs d new_memory_store-IsIndexed

-- After such a history two stored orders with one merchant and one external identifier lie under the
-- same identifier: a merchant has at most one order with an external identifier.
pub external_order_unique :
    (cs : List Call)
    → AllDrawn new_memory_store cs
    → (i j : String) (o p : Order) → Dict.get (run new_memory_store cs).orders i ≡ some o
    → Dict.get (run new_memory_store cs).orders j ≡ some p
    → o.merchant_id ≡ p.merchant_id
    → o.external_order_id ≡ p.external_order_id
    → i ≡ j
external_order_unique cs d i j o p at_i at_j merchant ext =
    let v = run-IsIndexed cs d in
    let li = v.listed i o at_i in let lj = v.listed j p at_j in cc (li, lj, merchant, ext)

-- Entries of the idempotency index are never overwritten or dropped.
entry_at :
    {s t : MemoryStore} (ref id : String)
    → t ≡ s
    → Dict.get s.orders_by_idempotency ref ≡ some id
    → Dict.get t.orders_by_idempotency ref ≡ some id
entry_at ref id e =
    subst (λ (m : MemoryStore). Dict.get m.orders_by_idempotency ref ≡ some id) (sym e)

step_entry :
    {D : Type 0} {s t : MemoryStore}
    → Move D s t
    → (ref id : String) → Dict.get s.orders_by_idempotency ref ≡ some id
    → Dict.get t.orders_by_idempotency ref ≡ some id
step_entry (stay e) ref id h = entry_at ref id e h
step_entry {s = s} (insert merchant_id key order event audit drawn new free e) ref id h =
    entry_at ref id e
      (elim (get-put_cases s.orders_by_idempotency (scoped_key merchant_id key) ref
        order.order_id) [ inl (hit, put) ↦ absurd (cc (new, h, hit)) | inr (miss, put) ↦ put ∙ h ])
step_entry (advance k old new events audit found terms legal e) ref id h = entry_at ref id e h
step_entry (note audit e) ref id h = entry_at ref id e h
step_entry (relay d' published claimed e) ref id h = entry_at ref id e h

pub run_entry :
    (s : MemoryStore) (cs : List Call) (ref id : String)
    → Dict.get s.orders_by_idempotency ref ≡ some id
    → Dict.get (run s cs).orders_by_idempotency ref ≡ some id
unfolding run
run_entry s [] ref id h = h
run_entry s (c ∷ cs) ref id h = run_entry (step s c) cs ref id (step_entry (step-Move s c) ref id h)
