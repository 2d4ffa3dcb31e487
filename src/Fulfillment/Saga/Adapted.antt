-- ===== src/Fulfillment/Saga/Adapted.antt =====
-- The payment and shipment workers with the adapters over the fake providers.
use fulfillhub_go_commerce_p.Prelude.{
  String, ◌≡◌, refl, Bool, true, false, none, some, str_eq, Bool-cases, inl, inr, if◌then◌else◌,
}
use fulfillhub_go_commerce_p.Dict
use fulfillhub_go_commerce_p.Dict.{get-put_self}
use fulfillhub_go_commerce_p.Commerce.Status.{OrderStatus, validate_order_transition}
use fulfillhub_go_commerce_p.Commerce.Model.{Order, Payment}
use fulfillhub_go_commerce_p.Commerce.Event.{EventType, OutboxEvent, AuditLog}
use fulfillhub_go_commerce_p.Commerce.Result.{ok}
use fulfillhub_go_commerce_p.Commerce.Store.{
  MemoryStore, find_order, check_transition, save_order, emit, append_audit, append_outbox_event,
  get_order,
}
use fulfillhub_go_commerce_p.Commerce.Store.Projection.{record_payment_authorized}
use fulfillhub_go_commerce_p.Fulfillment.Ports.{Dependencies, memory_projector, memory_orders}
use fulfillhub_go_commerce_p.Fulfillment.Rules.{
  validate_event, next_event_at, has_authorized_payment, normalized_payment,
}
use fulfillhub_go_commerce_p.Fulfillment.Handlers.{authorize_payment}
use fulfillhub_go_commerce_p.Fulfillment.Adapters.{
  authorize_with, create_shipment_with, fake_authorize, fake_create_shipment,
}
use fulfillhub_go_commerce_p.Fulfillment.Saga.{Draws}

-- The workers' dependencies with both adapters.
abbrev pub adapted : Draws → Dependencies MemoryStore
adapted d = record {
  projector = some memory_projector;
  orders = some memory_orders;
  inventory_reserver = none;
  payment_authorizer = some (authorize_with (some get_order) (some fake_authorize));
  shipment_creator =
      some (create_shipment_with (some get_order) (some fake_create_shipment) d.clock);
  clock = d.clock;
  new_id = d.new_id;
}

-- The order holds an authorized payment with the credential reference of `payment`.
pub record Paid (t : MemoryStore) (id : String) (payment : Payment) : Type 0 where
  pub order : Order
  pub found : Dict.get t.orders id ≡ some order
  pub reached : order.status ≡ OrderStatus.payment_authorized
  pub authorized : has_authorized_payment order ≡ true
  pub receipt : Payment
  pub recorded : order.payment ≡ some receipt
  pub same_credential : receipt.credential_ref ≡ payment.credential_ref

-- A fact of both branches.
either_branch :
    {A : Type 0} (P : A → Type 0) (c : Bool) (x y : A) → P x → P y → P (if c then x else y)
either_branch P true x y hx hy = hx
either_branch P false x y hx hy = hy

abbrev IsReceipt : String → Payment → Type 0
IsReceipt credential p = (str_eq p.status "authorized" ≡ true) × (p.credential_ref ≡ credential)

normalized_payment-IsReceipt :
    (provider id credential : String)
    → IsReceipt credential (
        normalized_payment (record {
          provider = provider;
          status = "authorized";
          authorization_id = id;
          credential_ref = credential;
        }))
unfolding normalized_payment
normalized_payment-IsReceipt provider id credential = elim (Bool-cases (str_eq provider "")) [
  | inl blank ↦ rw blank (refl, refl)
  | inr named ↦ rw named (refl, refl)
]

module _ (d : Draws) (event : OutboxEvent) (s : MemoryStore) (o : Order) (payment : Payment)
    (found : Dict.get s.orders event.order_id ≡ some o) where
  recorded_Paid :
      (next : OutboxEvent) (audit : AuditLog) (receipt : Payment)
      → o.status ≡ OrderStatus.inventory_reserved
      → o.payment ≡ some payment
      → IsReceipt payment.credential_ref receipt
      → (t : MemoryStore) × (record_payment_authorized event next receipt audit s ≡ (ok tt, t))
        × Paid t event.order_id payment
  unfolding record_payment_authorized find_order check_transition save_order emit append_audit
      append_outbox_event validate_order_transition has_authorized_payment
  recorded_Paid next audit receipt reserved pays (authorized, same) = rw found (
      rw (reserved, pays)
        (elim (Bool-cases (str_eq receipt.provider "")) [
          | inl blank ↦ rw blank (
            _,
            refl,
            record {
              order = _;
              found = get-put_self s.orders event.order_id _;
              reached = refl;
              authorized = authorized;
              receipt = _;
              recorded = refl;
              same_credential = same;
            },
          )
          | inr named ↦ rw named (
            _,
            refl,
            record {
              order = _;
              found = get-put_self s.orders event.order_id _;
              reached = refl;
              authorized = authorized;
              receipt = _;
              recorded = refl;
              same_credential = same;
            },
          )
        ]))

  -- A well-formed `inventory.reserved` event about a reserved order that names a payment credential:
  -- with the adapter over the fake provider the payment worker succeeds, and the order ends at
  -- `payment_authorized` with an authorized payment under the same credential reference.
  pub adapted_payment_authorized :
      validate_event event EventType.inventory_reserved ≡ none
      → o.status ≡ OrderStatus.inventory_reserved
      → o.payment ≡ some payment
      → str_eq payment.credential_ref "" ≡ false
      → (t : MemoryStore) × (authorize_payment (adapted d) event s ≡ (ok tt, t))
        × Paid t event.order_id payment
  unfolding authorize_payment authorize_with fake_authorize get_order memory_projector
      record_payment_authorized find_order check_transition save_order emit append_audit
      append_outbox_event validate_order_transition normalized_payment has_authorized_payment
  adapted_payment_authorized valid reserved pays credible = rw valid (
      rw found (
        rw pays (
          rw credible (
            recorded_Paid (next_event_at (adapted d) 0 event EventType.payment_authorized) _ _
              reserved pays
              (let receipt =
                  normalized_payment-IsReceipt payment.provider _ payment.credential_ref in
                either_branch (IsReceipt payment.credential_ref) _ _ _ receipt receipt)))))
