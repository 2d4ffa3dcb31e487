-- ===== src/Commerce/Store/Move.antt =====
-- What a call of the memory store can do to it: every method is one of five kinds of move, or fails
-- and leaves the store alone.
use fulfillhub_go_commerce_p.Prelude.{
  ℕ, String, ◌≡◌, refl, List, [], ◌∷◌, ◌++◌, map, none, some, arith, Option-cases, inl, inr,
}
use fulfillhub_go_commerce_p.Dict
use fulfillhub_go_commerce_p.Dict.{Dict}
use fulfillhub_go_commerce_p.Commerce.Keys.{scoped_key}
use fulfillhub_go_commerce_p.Commerce.Status.{OrderStatus, validate_order_transition}
use fulfillhub_go_commerce_p.Commerce.Model.{Time, Money, Order, OrderItem, ReservationStatus}
use fulfillhub_go_commerce_p.Commerce.Event.{OutboxEvent, AuditLog, with_envelope_defaults}
use fulfillhub_go_commerce_p.Commerce.Result.{
  Error, Result, ok, err, invalid_state_transition, not_found, ◌>>=◌, ◌>>◌,
}
use fulfillhub_go_commerce_p.Commerce.Store.{
  MemoryStore, find_order, save_order, check_transition, emit,
}
use fulfillhub_go_commerce_p.Commerce.Store.Projection.{mark, release_reserved}

-- The part of an order item that no projection writes.
pub record OrderLine : Type 0 where
  pub sku : String
  pub quantity : ℕ
  pub unit_price : Money

abbrev pub line : OrderItem → OrderLine
line item = record { sku = item.sku; quantity = item.quantity; unit_price = item.unit_price }

-- The part of an order that no projection writes.
pub record SameTerms (o p : Order) : Type 0 where
  pub order_id : p.order_id ≡ o.order_id
  pub merchant_id : p.merchant_id ≡ o.merchant_id
  pub external_order_id : p.external_order_id ≡ o.external_order_id
  pub currency : p.currency ≡ o.currency
  pub totals : p.totals ≡ o.totals
  pub lines : map line p.items ≡ map line o.items
  pub address : p.shipping_address_ref ≡ o.shipping_address_ref
  pub created_at : p.created_at ≡ o.created_at

pub data MayBecome (s t : OrderStatus) : Type 0 where
  same : t ≡ s → MayBecome s t
  moved : validate_order_transition s t ≡ none → MayBecome s t

-- What the identifiers drawn at random are for: the order of an insertion has a new identifier, and
-- it belongs to the merchant of the call, as `CreateOrderContext` builds it.
abbrev pub IsNew : MemoryStore → String → Order → Type 0
IsNew s merchant_id order =
    (Dict.get s.orders order.order_id ≡ none) × (order.merchant_id ≡ merchant_id)

-- `D` is what is supposed of the call: an insertion of a new order under `D`. Only a call of which
-- `D` holds writes the relay's maps.
pub data Move (D : Type 0) (s t : MemoryStore) : Type 0 where
  stay : t ≡ s → Move D s t
  insert :
      (merchant_id key : String) (order : Order) (event : OutboxEvent) (audit : AuditLog)
      → (D → IsNew s merchant_id order)
      → Dict.get s.orders_by_idempotency (scoped_key merchant_id key) ≡ none
      → Dict.get s.orders_by_external (scoped_key merchant_id order.external_order_id) ≡ none
      → t ≡ record s {
        orders = Dict.put s.orders order.order_id order;
        orders_by_external =
            Dict.put s.orders_by_external
              (scoped_key merchant_id order.external_order_id)
              order.order_id;
        orders_by_idempotency =
            Dict.put s.orders_by_idempotency (scoped_key merchant_id key) order.order_id;
        outbox = s.outbox ++ with_envelope_defaults event ∷ [];
        audit_logs = s.audit_logs ++ audit ∷ [];
      }
      → Move D s t
  advance :
      (id : String) (old new : Order) (events : List OutboxEvent) (audit : AuditLog)
      → Dict.get s.orders id ≡ some old
      → SameTerms old new
      → MayBecome old.status new.status
      → t ≡ record s {
        orders = Dict.put s.orders id new;
        outbox = s.outbox ++ events;
        audit_logs = s.audit_logs ++ audit ∷ [];
      }
      → Move D s t
  note : (audit : AuditLog) → t ≡ record s { audit_logs = s.audit_logs ++ audit ∷ [] } → Move D s t
  relay :
      D
      → (published claimed : Dict Time)
      → t ≡ record s { published_outbox = published; claimed_outbox = claimed }
      → Move D s t

-- A call fails and leaves the store as it was, or makes a move.
pub data Outcome {A : Type 0} (D : Type 0) (s : MemoryStore) (r : Result A × MemoryStore)
    : Type 0 where
  refused : (e : Error) → r ≡ (err e, s) → Outcome D s r
  done : (a : A) → r.0 ≡ ok a → Move D s r.1 → Outcome D s r

module _ {ℓ} {A : Type ℓ} (f : OrderItem → A) (g : OrderItem → OrderItem) where
  pub map-map_same :
      ((i : OrderItem) → f (g i) ≡ f i)
      → (items : List OrderItem) → map f (map g items) ≡ map f items
  map-map_same h [] = refl
  map-map_same h (i ∷ items) = cc (h i, map-map_same h items)

pub lines-mark :
    (status : ReservationStatus) (items : List OrderItem)
    → map line (map (mark status) items) ≡ map line items
lines-mark status = map-map_same line (mark status) (λ i. refl)

pub lines-release :
    (items : List OrderItem) → map line (map release_reserved items) ≡ map line items
lines-release = map-map_same line release_reserved (λ i. ground arith)

-- The shape of a projection that validates the target status.
module _ (D : Type 0) (id : String) (status : OrderStatus) (f : Order → Order)
    (event : Order → OutboxEvent) (audit : AuditLog) (s : MemoryStore)
    (terms : (o : Order) → SameTerms o (f o)) (target : (o : Order) → (f o).status ≡ status) where
  checked_step :
      (o : Order)
      → Dict.get s.orders id ≡ some o
      → Outcome D s
          ((check_transition o.status status >> (save_order id (f o) >> emit (event o) audit)) s)
  unfolding check_transition save_order emit
  checked_step o found = elim (Option-cases (validate_order_transition o.status status)) [
    | inl legal ↦
        rw (legal, check_transition)
          (done tt refl (
            advance id o (f o) (with_envelope_defaults (event o) ∷ []) audit found (terms o)
              (moved (rw (target o) legal)) refl))
    | inr (issue, illegal) ↦
        rw (illegal, check_transition) (refused (invalid_state_transition (some issue)) refl)
  ]

  pub checked_Outcome : Outcome D s (
      (find_order id >>= λ o.
      check_transition o.status status >> (save_order id (f o) >> emit (event o) audit))
        s)
  unfolding find_order
  checked_Outcome = elim (Option-cases (Dict.get s.orders id)) [
    | inl missing ↦ rw (missing, find_order) (refused not_found refl)
    | inr (o, found) ↦ rw (found, find_order) (checked_step o found)
  ]

-- The shape of a projection that leaves the status alone.
module _ (D : Type 0) (id : String) (f : Order → Order) (event : Order → OutboxEvent)
    (audit : AuditLog) (s : MemoryStore) (terms : (o : Order) → SameTerms o (f o))
    (status : (o : Order) → (f o).status ≡ o.status) where
  pub unchecked_Outcome :
      Outcome D s ((find_order id >>= λ o. save_order id (f o) >> emit (event o) audit) s)
  unfolding find_order save_order emit
  unchecked_Outcome = elim (Option-cases (Dict.get s.orders id)) [
    | inl missing ↦ rw (missing, find_order) (refused not_found refl)
    | inr (o, found) ↦
        rw (found, find_order)
          (done tt refl (
            advance id o (f o) (with_envelope_defaults (event o) ∷ []) audit found (terms o)
              (same (status o)) refl))
  ]
