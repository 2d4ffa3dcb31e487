-- ===== src/Examples/Service.antt =====
-- A valid request whose total overflows.
use fulfillhub_go_commerce_p.Prelude.{◌≡◌, refl, ◌+◌, leb, true, false, some, arith}
use fulfillhub_go_commerce_p.Prelude.Int64.{is_negative, sign_bit, add, mul}
use fulfillhub_go_commerce_p.Prelude.Text.{is_blank}
use fulfillhub_go_commerce_p.Dict
use fulfillhub_go_commerce_p.Commerce.Model.{Order}
use fulfillhub_go_commerce_p.Commerce.Result.{ok}
use fulfillhub_go_commerce_p.Commerce.Validation.{validate_create_order}
use fulfillhub_go_commerce_p.Commerce.Store.{MemoryStore, new_memory_store, insert_order}
use fulfillhub_go_commerce_p.Commerce.Service.{
  new_order, create_order, shipping_amount, order_totals, subtotal_from,
}
use fulfillhub_go_commerce_p.Commerce.Service.Totals.{gross, created_total}
use fulfillhub_go_commerce_p.Examples.Data.{hashing, draw, merchant, key, dear_request}

abbrev dear_order : Order
dear_order = new_order hashing draw merchant dear_request

abbrev dear_store : MemoryStore
dear_store = (create_order hashing draw merchant key "corr" dear_request new_memory_store).1

dear_creates :
    create_order hashing draw merchant key "corr" dear_request new_memory_store
    ≡ (ok (some dear_order, false), dear_store)
unfolding create_order insert_order new_memory_store validate_create_order is_blank Dict.empty
    Dict.get Dict.put
dear_creates = refl

created_total_example :
    (dear_order.totals.total.amount ≡ gross dear_request.items + shipping_amount)
    × (is_negative dear_order.totals.total.amount
        ≡ leb sign_bit (gross dear_request.items + shipping_amount))
unfolding gross
created_total_example =
    created_total hashing draw merchant key "corr" dear_request new_memory_store dear_store
      dear_order dear_creates (omega arith)

dear_total_negative : is_negative dear_order.totals.total.amount ≡ true
unfolding new_order order_totals subtotal_from add mul
dear_total_negative = refl
