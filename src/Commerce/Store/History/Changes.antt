-- ===== src/Commerce/Store/History/Changes.antt =====
-- internal/commerce/store.go: how often the status of an order changes along a history.
use fulfillhub_go_commerce_p.Prelude.{
  ℕ, ◌+◌, ◌≤◌, String, ◌≡◌, sym, ap, ◌∙◌, true, List, [], ◌∷◌, Option, some, inl, inr, arith,
  eq_refl, if◌then◌else◌, Option-cases,
}
use fulfillhub_go_commerce_p.Dict
use fulfillhub_go_commerce_p.Commerce.Status.{OrderStatus, status_eq, other}
use fulfillhub_go_commerce_p.Commerce.Status.Lifecycle.{rank, rank_bounded, ⟶*-drops}
use fulfillhub_go_commerce_p.Commerce.Model.{Order}
use fulfillhub_go_commerce_p.Commerce.Store.{MemoryStore}
use fulfillhub_go_commerce_p.Commerce.Store.History.{Call, step, AllDrawn, step-Move}
use fulfillhub_go_commerce_p.Commerce.Store.History.Orders.{Move-Later}

-- 1 where a stored order has another status afterwards.
abbrev pub status_change : Option Order → Option Order → ℕ
status_change (some o) (some p) = if status_eq o.status p.status then 0 else 1
status_change _ _ = 0

-- The calls of a history that change the status of the order under an identifier.
pub status_changes : String → MemoryStore → List Call → ℕ
status_changes id s [] = 0
status_changes id s (c ∷ calls) =
    status_change (Dict.get s.orders id) (Dict.get (step s c).orders id)
    + status_changes id (step s c) calls

status_eq_refl : (s : OrderStatus) → status_eq s s ≡ true
unfolding status_eq
status_eq_refl (other x) = ground (arith, eq_refl x)
status_eq_refl s = ground arith

same_status : (s t : OrderStatus) → s ≡ t → status_eq s t ≡ true
same_status s t e = ap (status_eq s) (sym e) ∙ status_eq_refl s

stored_changes :
    (id : String) (s : MemoryStore) (calls : List Call) (o : Order)
    → AllDrawn s calls
    → Dict.get s.orders id ≡ some o
    → status_changes id s calls ≤ rank o.status
unfolding status_changes
stored_changes id s [] o drawn found = omega arith
stored_changes id s (c ∷ calls) o drawn found =
    let (p, g, terms, path) = Move-Later drawn.0 (step-Move s c) id o found in
    let rest = stored_changes id (step s c) calls p drawn.1 g in
    rw (found, g)
      (elim (⟶*-drops path) [
        | inl stays ↦ rw (same_status o.status p.status stays) (omega (arith, rest, ap rank stays))
        | inr drops ↦ ground (arith, rest, drops)
      ])

-- From any store and along any history whose insertions bring orders with fresh identifiers for the
-- calling merchant, at most five calls change the status of the order under an identifier.
pub status_changes_bounded :
    (id : String) (s : MemoryStore) (calls : List Call)
    → AllDrawn s calls
    → status_changes id s calls ≤ 5
unfolding status_changes
status_changes_bounded id s [] drawn = omega arith
status_changes_bounded id s (c ∷ calls) drawn = elim (Option-cases (Dict.get s.orders id)) [
  | inl missing ↦ rw missing (omega (arith, status_changes_bounded id (step s c) calls drawn.1))
  | inr (o, found) ↦
      omega (arith, stored_changes id s (c ∷ calls) o drawn found, rank_bounded o.status)
]
