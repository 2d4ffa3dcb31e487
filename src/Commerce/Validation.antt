-- ===== src/Commerce/Validation.antt =====
-- internal/commerce/service.go: `validateCreateOrder` and `validateCancelActor`. A list of field
-- errors is collected; an empty one is the nil error.
use Prim.Native.String.{◌++◌}
use fulfillhub_go_commerce_p.Prelude.{
  ℕ, suc, String, Bool, List, [], ◌∷◌, none, some, str_eq, if◌then◌else◌, ltb, not, ◌==◌,
}
use fulfillhub_go_commerce_p.Prelude.Text.{is_blank, trim_space, decimal, len}
use fulfillhub_go_commerce_p.Prelude.Int64.{is_negative, is_below_one}
use fulfillhub_go_commerce_p.Dict
use fulfillhub_go_commerce_p.Dict.{Dict}
use fulfillhub_go_commerce_p.Commerce.Model.{CreateOrderCommand, OrderItemInput}
use fulfillhub_go_commerce_p.Commerce.Event.{AuditActor}
use fulfillhub_go_commerce_p.Commerce.Result.{FieldError}

-- `if bad { fields = append(fields, FieldError{…}) }` in front of the later checks.
abbrev pub report : Bool → String → String → List FieldError → List FieldError
report bad name issue rest = if bad then record { name = name; issue = issue } ∷ rest else rest

abbrev item_field : ℕ → String → String
item_field idx name = "items[" ++ (decimal idx ++ ("]." ++ name))

-- The three branches on an item's SKU.
check_sku : Dict ℕ → ℕ → String → List FieldError → List FieldError
check_sku seen idx sku rest =
    if str_eq sku ""
    then record { name = item_field idx "sku"; issue = "is required" } ∷ rest
    else elim (Dict.get seen sku) [
      | none ↦ rest
      | some first ↦
          record {
            name = item_field idx "sku";
            issue = "duplicates items[" ++ (decimal first ++ "].sku");
          }
          ∷ rest
    ]

-- `seenSKUs` after the item: the first index of each SKU.
see_sku : Dict ℕ → ℕ → String → Dict ℕ
see_sku seen idx sku =
    if str_eq sku "" then seen else if Dict.has seen sku then seen else Dict.put seen sku idx

check_items : String → Dict ℕ → ℕ → List OrderItemInput → List FieldError → List FieldError
unfolding check_sku see_sku
check_items currency seen idx [] rest = rest
check_items currency seen idx (item ∷ items) rest = check_sku seen idx (trim_space item.sku) (
    report (is_below_one item.quantity) (item_field idx "quantity") "must be greater than zero" (
      report (is_negative item.unit_price.amount) (item_field idx "unit_price.amount")
        "must not be negative"
        (report (not (str_eq item.unit_price.currency currency))
          (item_field idx "unit_price.currency") "must match order currency"
          (check_items currency (see_sku seen idx (trim_space item.sku)) (suc idx) items rest))))

abbrev no_items : List OrderItemInput → Bool
no_items [] = Bool.true
no_items (item ∷ items) = Bool.false

unfoldable pub validate_create_order : String → String → CreateOrderCommand → List FieldError
unfolding check_items
validate_create_order merchant_id idempotency_key req =
    report (is_blank merchant_id) "merchant_id" "is required from authentication context" (
      report (ltb (len (trim_space idempotency_key)) 12) "Idempotency-Key"
        "must contain at least 12 characters"
        (report (is_blank req.external_order_id) "external_order_id" "is required" (
          report (not (len req.currency == 3)) "currency" "must be a three-letter ISO currency code"
            (report (is_blank req.customer.email) "customer.email" "is required" (
              report (is_blank req.shipping_address.country) "shipping_address.country"
                "is required"
                (report (no_items req.items) "items" "must contain at least one item" (
                  check_items req.currency Dict.empty 0 req.items (
                    report (is_blank req.payment_method.provider) "payment_method.provider"
                      "is required"
                      (report (is_blank req.payment_method.payment_token)
                        "payment_method.payment_token" "is required" [])))))))))

unfoldable pub validate_cancel_actor : AuditActor → List FieldError
validate_cancel_actor actor = report (is_blank actor.reason) "reason" "is required" (
    report (is_blank actor.type) "requested_by.type" "is required"
      (report (is_blank actor.id) "requested_by.id" "is required" []))
