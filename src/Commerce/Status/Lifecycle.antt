-- ===== src/Commerce/Status/Lifecycle.antt =====
-- The changes of status that `ValidateOrderTransition` lets an order make, as a step relation: the
-- diagram of docs/architecture/domain-model.md and two arrows which that diagram does not have.
use fulfillhub_go_commerce_p.Prelude.{
  ℕ, ◌≤◌, ◌<◌, ◌≡◌, refl, ◌↔◌, ◌⊎◌, inl, inr, true, none, arith, subst,
}
use fulfillhub_go_commerce_p.Commerce.Status.{
  OrderStatus, pending_fulfillment, inventory_reserved, payment_authorized, shipment_created,
  cancellation_pending, manual_review, cancelled, completed, failed, is_valid_order_status,
  validate_order_transition,
}

-- The arrows of the documented diagram.
pub data IsDocumented : OrderStatus → OrderStatus → Type 0 where
  reserve : IsDocumented pending_fulfillment inventory_reserved
  authorize : IsDocumented inventory_reserved payment_authorized
  ship : IsDocumented payment_authorized shipment_created
  complete : IsDocumented shipment_created completed
  reject : IsDocumented pending_fulfillment failed
  cancel_reserved : IsDocumented inventory_reserved cancellation_pending
  cancel_authorized : IsDocumented payment_authorized cancellation_pending
  cancel_shipped : IsDocumented shipment_created cancellation_pending
  cancel : IsDocumented cancellation_pending cancelled
  review : IsDocumented cancellation_pending manual_review

infix 40 ◌⟶◌ ◌⟶*◌
-- `decline` and `cancel_pending` are in the code only.
pub data ◌⟶◌ : OrderStatus → OrderStatus → Type 0 where
  drawn : {s t : OrderStatus} → IsDocumented s t → s ⟶ t
  decline : inventory_reserved ⟶ cancelled
  cancel_pending : pending_fulfillment ⟶ cancellation_pending

pub data ◌⟶*◌ (s : OrderStatus) : OrderStatus → Type 0 where
  here : s ⟶* s
  then : {t u : OrderStatus} → s ⟶* t → t ⟶ u → s ⟶* u

pub ruleset arrows = (
  drawn, reserve, authorize, ship, complete, reject, decline, cancel_pending, cancel_reserved,
  cancel_authorized, cancel_shipped, cancel, review,
)

-- One of the nine constants.
abbrev pub IsKnown : OrderStatus → Type 0
IsKnown s = is_valid_order_status s ≡ true

-- The statuses that no arrow leaves.
abbrev pub IsTerminal : OrderStatus → Type 0
IsTerminal s = (s ≡ manual_review) ⊎ (s ≡ cancelled) ⊎ (s ≡ completed) ⊎ (s ≡ failed)

pub ⟶*-trans : {s t u : OrderStatus} → s ⟶* t → t ⟶* u → s ⟶* u
⟶*-trans p here = p
⟶*-trans p (then q e) = then (⟶*-trans p q) e

arrow_validates : {s t : OrderStatus} → s ⟶ t → validate_order_transition s t ≡ none
unfolding validate_order_transition
arrow_validates (drawn reserve) = refl
arrow_validates (drawn authorize) = refl
arrow_validates (drawn ship) = refl
arrow_validates (drawn complete) = refl
arrow_validates (drawn reject) = refl
arrow_validates decline = refl
arrow_validates cancel_pending = refl
arrow_validates (drawn cancel_reserved) = refl
arrow_validates (drawn cancel_authorized) = refl
arrow_validates (drawn cancel_shipped) = refl
arrow_validates (drawn cancel) = refl
arrow_validates (drawn review) = refl

validates_step :
    (s t : OrderStatus) → validate_order_transition s t ≡ none → IsKnown s × ((s ≡ t) ⊎ (s ⟶ t))
unfolding validate_order_transition
validates_step s t h = grind (arith, arrows)

stay_validates : (s : OrderStatus) → IsKnown s → validate_order_transition s s ≡ none
unfolding validate_order_transition
stay_validates s h = ground arith

step_validates :
    (s t : OrderStatus) → IsKnown s → (s ≡ t) ⊎ (s ⟶ t) → validate_order_transition s t ≡ none
step_validates s t k (inl e) =
    subst (λ u. validate_order_transition s u ≡ none) e (stay_validates s k)
step_validates s t k (inr e) = arrow_validates e

-- `ValidateOrderTransition` accepts exactly a known source that stays, follows an arrow of the diagram
-- in docs/architecture/domain-model.md, or goes from `inventory_reserved` to `cancelled` or from
-- `pending_fulfillment` to `cancellation_pending`, which that diagram does not have.
pub validate_order_transition_iff :
    (s t : OrderStatus) → (validate_order_transition s t ≡ none) ↔ (IsKnown s × ((s ≡ t) ⊎ (s ⟶ t)))
validate_order_transition_iff s t = (validates_step s t, λ h. step_validates s t h.0 h.1)

-- The number of changes that can still follow.
abbrev pub rank : OrderStatus → ℕ
rank pending_fulfillment = 5
rank inventory_reserved = 4
rank payment_authorized = 3
rank shipment_created = 2
rank cancellation_pending = 1
rank _ = 0

rank-⟶ : {s t : OrderStatus} → s ⟶ t → rank t < rank s
rank-⟶ (drawn reserve) = omega arith
rank-⟶ (drawn authorize) = omega arith
rank-⟶ (drawn ship) = omega arith
rank-⟶ (drawn complete) = omega arith
rank-⟶ (drawn reject) = omega arith
rank-⟶ decline = omega arith
rank-⟶ cancel_pending = omega arith
rank-⟶ (drawn cancel_reserved) = omega arith
rank-⟶ (drawn cancel_authorized) = omega arith
rank-⟶ (drawn cancel_shipped) = omega arith
rank-⟶ (drawn cancel) = omega arith
rank-⟶ (drawn review) = omega arith

⟶*-rank : {s t : OrderStatus} (p : s ⟶* t) → rank t ≤ rank s
⟶*-rank here = omega arith
⟶*-rank (then p e) = omega (arith, ⟶*-rank p, rank-⟶ e)

pub rank_bounded : (s : OrderStatus) → rank s ≤ 5
rank_bounded s = ground arith

-- A path that changes the status ends at a lower rank.
pub ⟶*-drops : {s t : OrderStatus} → s ⟶* t → (s ≡ t) ⊎ (rank t < rank s)
⟶*-drops here = inl refl
⟶*-drops (then p e) = inr (omega (arith, ⟶*-rank p, rank-⟶ e))

terminal_rank : (s : OrderStatus) → IsTerminal s → rank s ≡ 0
terminal_rank s h = ground arith

-- A terminal status is never left.
pub terminal_absorbs : {s t : OrderStatus} → IsTerminal s → s ⟶* t → t ≡ s
terminal_absorbs h here = refl
terminal_absorbs {s} h (then p e) =
    absurd (omega (arith, ⟶*-rank (then p e), terminal_rank s h, rank-⟶ e, ⟶*-rank p))
