-- ===== src/Examples/Api.antt =====
-- A merchant at the API: its own order, a cancellation, and a creation.
use fulfillhub_go_commerce_p.Prelude.{String, ◌≡◌, refl, ◌⊎◌, false, some}
use fulfillhub_go_commerce_p.Prelude.Text.{is_blank}
use fulfillhub_go_commerce_p.Dict
use fulfillhub_go_commerce_p.Dict.{Dict, get-put_self}
use fulfillhub_go_commerce_p.Commerce.Status.{OrderStatus}
use fulfillhub_go_commerce_p.Commerce.Model.{Order}
use fulfillhub_go_commerce_p.Commerce.Event.{AuditActor}
use fulfillhub_go_commerce_p.Commerce.Validation.{validate_create_order}
use fulfillhub_go_commerce_p.Commerce.Store.{
  MemoryStore, new_memory_store, insert_order, get_order, find_order,
}
use fulfillhub_go_commerce_p.Commerce.Service.{new_order}
use fulfillhub_go_commerce_p.Commerce.Service
use fulfillhub_go_commerce_p.Api.{
  merchant_actor, order_found, accepted, Accepted, body, allowed, get_order_as, cancel_order_as,
  create_order,
}
use fulfillhub_go_commerce_p.Api.Tenancy.{Owns, shown_order_owned, cancelling_caller-Owns}
use fulfillhub_go_commerce_p.Api.Creation.{BelongsTo, created_order_belongs}
use fulfillhub_go_commerce_p.Examples.Data.{hashing, draw, later_draw, request, merchant, key}

abbrev own_order : Order
own_order = new_order hashing draw merchant request

abbrev store : MemoryStore
store = record new_memory_store { orders = Dict.put new_memory_store.orders "ord_1" own_order }

shown : get_order_as (merchant_actor merchant) "ord_1" store ≡ order_found 200 own_order
unfolding get_order_as get_order find_order new_memory_store new_order Dict.get Dict.put Dict.empty
shown = refl

shown_order_owned_example :
    Owns (merchant_actor merchant) own_order × (Dict.get store.orders "ord_1" ≡ some own_order)
shown_order_owned_example =
    shown_order_owned (merchant_actor merchant) "ord_1" store 200 own_order shown

abbrev reason : AuditActor
reason = record { type = "merchant"; id = "u1"; reason = "changed my mind" }

cancelling_caller-Owns_example :
    ((cancel_order_as (merchant_actor "mer_2") later_draw "ord_1" "corr" (body reason) store).1
      ≡ store)
    ⊎ ((o : Order) × (Dict.get store.orders "ord_1" ≡ some o) × Owns (merchant_actor "mer_2") o)
cancelling_caller-Owns_example =
    cancelling_caller-Owns (merchant_actor "mer_2") later_draw "ord_1" "corr" (body reason) store

abbrev keys : Dict String
keys = Dict.put Dict.empty "fh_key" merchant

abbrev answer : Accepted
answer = record {
  order_id = "ord_1";
  merchant_id = merchant;
  status = OrderStatus.pending_fulfillment;
  accepted_at = 100;
}

abbrev filled : MemoryStore
filled =
    (create_order keys hashing draw "fh_key" key "corr" (body request) (λ k. allowed)
      new_memory_store).1

creates :
    create_order keys hashing draw "fh_key" key "corr"
      (body request)
      (λ k. allowed)
      new_memory_store
    ≡ (accepted 202 false answer, filled)
unfolding create_order Service.create_order insert_order new_memory_store new_order
    validate_create_order is_blank Dict.get Dict.put Dict.empty
creates = refl

created_order_belongs_example :
    (merchant_id : String) × (Dict.get keys "fh_key" ≡ some merchant_id)
    × BelongsTo filled answer merchant_id
created_order_belongs_example =
    created_order_belongs keys hashing draw "fh_key" key "corr" (body request) (λ k. allowed)
      new_memory_store filled 202 answer creates
