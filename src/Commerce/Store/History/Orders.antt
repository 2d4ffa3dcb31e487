-- ===== src/Commerce/Store/History/Orders.antt =====
-- An order along a history: it keeps its terms, and its status follows the lifecycle.
use fulfillhub_go_commerce_p.Prelude.{
  String, ◌≡◌, refl, sym, ◌∙◌, subst, List, [], ◌∷◌, some, none, inl, inr, ◌⊎◌,
}
use fulfillhub_go_commerce_p.Dict
use fulfillhub_go_commerce_p.Dict.{Dict}
use fulfillhub_go_commerce_p.Dict.{get-put_cases}
use fulfillhub_go_commerce_p.Commerce.Status.{OrderStatus}
use fulfillhub_go_commerce_p.Commerce.Status.Lifecycle.{
  ◌⟶◌, ◌⟶*◌, here, then, ⟶*-trans, validate_order_transition_iff, IsTerminal, terminal_absorbs,
}
use fulfillhub_go_commerce_p.Commerce.Model.{Order}
use fulfillhub_go_commerce_p.Commerce.Store.{MemoryStore}
use fulfillhub_go_commerce_p.Commerce.Store.Move.{
  Move, stay, insert, advance, note, relay, SameTerms, MayBecome, same, moved,
}
use fulfillhub_go_commerce_p.Commerce.Store.History.{Call, step, run, AllDrawn, step-Move}

pub SameTerms-refl : (o : Order) → SameTerms o o
SameTerms-refl o = record {
  order_id = refl;
  merchant_id = refl;
  external_order_id = refl;
  currency = refl;
  totals = refl;
  lines = refl;
  address = refl;
  created_at = refl;
}

pub SameTerms-trans : {o p q : Order} → SameTerms o p → SameTerms p q → SameTerms o q
SameTerms-trans a b = record {
  order_id = b.order_id ∙ a.order_id;
  merchant_id = b.merchant_id ∙ a.merchant_id;
  external_order_id = b.external_order_id ∙ a.external_order_id;
  currency = b.currency ∙ a.currency;
  totals = b.totals ∙ a.totals;
  lines = b.lines ∙ a.lines;
  address = b.address ∙ a.address;
  created_at = b.created_at ∙ a.created_at;
}

stepped : {s t : OrderStatus} → (s ≡ t) ⊎ (s ⟶ t) → s ⟶* t
stepped {s} (inl e) = subst (λ u. s ⟶* u) e here
stepped (inr e) = then here e

MayBecome-⟶* : {s t : OrderStatus} → MayBecome s t → s ⟶* t
MayBecome-⟶* {s} (same e) = subst (λ u. s ⟶* u) (sym e) here
MayBecome-⟶* {s} {t} (moved legal) = stepped ((validate_order_transition_iff s t).0 legal).1

-- The order under an identifier later on.
abbrev pub Later : Dict Order → String → Order → Type 0
Later orders id o =
    (p : Order) × (Dict.get orders id ≡ some p) × SameTerms o p × (o.status ⟶* p.status)

advance-Later :
    (s : MemoryStore) (k : String) (old new : Order)
    → Dict.get s.orders k ≡ some old
    → SameTerms old new
    → MayBecome old.status new.status
    → (id : String) (o : Order) → Dict.get s.orders id ≡ some o
    → Later (Dict.put s.orders k new) id o
advance-Later s k old new found terms legal id o h = elim (get-put_cases s.orders k id new) [
  | inl (hit, e) ↦
      let same : o ≡ old = cc (found, h, hit) in rw same (new, e, terms, MayBecome-⟶* legal)
  | inr (miss, e) ↦ (o, e ∙ h, SameTerms-refl o, here)
]

insert-Later :
    (s : MemoryStore) (order : Order)
    → Dict.get s.orders order.order_id ≡ none
    → (id : String) (o : Order) → Dict.get s.orders id ≡ some o
    → Later (Dict.put s.orders order.order_id order) id o
insert-Later s order fresh id o h = elim (get-put_cases s.orders order.order_id id order) [
  | inl (hit, e) ↦ absurd (cc (fresh, h, hit))
  | inr (miss, e) ↦ (o, e ∙ h, SameTerms-refl o, here)
]

orders_at :
    {s t : MemoryStore} (id : String) (o : Order)
    → t ≡ s
    → Later s.orders id o
    → Later t.orders id o
orders_at id o e = subst (λ (m : MemoryStore). Later m.orders id o) (sym e)

pub Move-Later :
    {D : Type 0} {s t : MemoryStore}
    → D
    → Move D s t
    → (id : String) (o : Order) → Dict.get s.orders id ≡ some o
    → Later t.orders id o
Move-Later d (stay e) id o h = orders_at id o e (o, h, SameTerms-refl o, here)
Move-Later {s = s} d (insert merchant_id key order event audit drawn new free e) id o h =
    orders_at id o e (insert-Later s order (drawn d).0 id o h)
Move-Later {s = s} d (advance k old new events audit found terms legal e) id o h =
    orders_at id o e (advance-Later s k old new found terms legal id o h)
Move-Later d (note audit e) id o h = orders_at id o e (o, h, SameTerms-refl o, here)
Move-Later d (relay d' published claimed e) id o h = orders_at id o e (o, h, SameTerms-refl o, here)

-- Along any history whose insertions bring orders with fresh identifiers for the calling merchant, an
-- order stays in the store under its identifier with its terms, and its status goes along the arrows
-- of the lifecycle.
pub run-Later :
    (s : MemoryStore) (cs : List Call)
    → AllDrawn s cs
    → (id : String) (o : Order) → Dict.get s.orders id ≡ some o
    → Later (run s cs).orders id o
unfolding run
run-Later s [] d id o h = (o, h, SameTerms-refl o, here)
run-Later s (c ∷ cs) d id o h =
    let (p, g, terms, path) = Move-Later d.0 (step-Move s c) id o h in
    let (q, k, terms', path') = run-Later (step s c) cs d.1 id p g in
    (q, k, SameTerms-trans terms terms', ⟶*-trans path path')

-- An order in a terminal status stays in the store and keeps that status along any history whose
-- insertions bring orders with fresh identifiers for the calling merchant.
pub terminal_order_final :
    (s : MemoryStore) (cs : List Call)
    → AllDrawn s cs
    → (id : String) (o : Order) → Dict.get s.orders id ≡ some o
    → IsTerminal o.status
    → (p : Order) × (Dict.get (run s cs).orders id ≡ some p) × (p.status ≡ o.status)
terminal_order_final s cs d id o h terminal =
    let (p, g, terms, path) = run-Later s cs d id o h in (p, g, terminal_absorbs terminal path)
