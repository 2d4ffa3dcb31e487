-- ===== src/Postgres/Contract/Stock.antt =====
-- The stock and the payments, which the contract does not speak of.
use fulfillhub_go_commerce_p.Prelude.{
  String, ◌≡◌, refl, ap, Option, none, some, List, [], ◌∷◌, inl, inr, Bool-cases, ◌==◌,
}
use fulfillhub_go_commerce_p.Commerce.Model.{Time, is_reserved}
use fulfillhub_go_commerce_p.Commerce.Result.{ok}
use fulfillhub_go_commerce_p.Commerce.Ensures.{Keeps}
use fulfillhub_go_commerce_p.Commerce.Contract.{Effect}
use fulfillhub_go_commerce_p.Postgres.Tables.{Database, ItemRow, InventoryRow, StockRow}
use fulfillhub_go_commerce_p.Postgres.{Engine}
use fulfillhub_go_commerce_p.Postgres.Rows.{update_items}
use fulfillhub_go_commerce_p.Postgres.Stock.{
  order_items_for_reservation, reservation_items, some_items, reserve_items, reserve_item,
  reserve_inventory_item, reserve_again, reserve_new, take_candidate, reserve_at, set_reservation,
  release_reserved_stock, release_inventory, close_reservations, release_order_items,
  void_authorized_payment, void_payment_row, void_order_payment, ReservationItem,
}
use fulfillhub_go_commerce_p.Postgres.Contract.{
  StockTest, KeepsStock, join, database_view, Step, SameView, sequence, kept, return-Step,
  update_keeps,
}
use fulfillhub_go_commerce_p.Postgres.Contract.Statements.{exec-Step, query-Step}

-- A statement that writes none of `orders`, `outbox_events` and `audit_logs`.
pub elsewhere :
    (f : Database → Database)
    → ((db : Database) → (f db).orders ≡ db.orders)
    → ((db : Database) → (f db).outbox_events ≡ db.outbox_events)
    → ((db : Database) → (f db).audit_logs ≡ db.audit_logs)
    → SameView f
unfolding database_view
elsewhere f a b c = record {
  status = λ db j. ap (λ o. (database_view (record db { orders = o })).status j) (a db);
  outbox = λ db. ap (λ o. (database_view (record db { outbox_events = o })).outbox) (b db);
  audits = c;
}

pub update_items-SameView : (id : String) (f : ItemRow → ItemRow) → SameView (update_items id f)
unfolding update_items
update_items-SameView id f = elsewhere _ (λ d. refl) (λ d. refl) (λ d. refl)

pub update_items-KeepsStock :
    (Q : StockTest) (id : String) (f : ItemRow → ItemRow) → KeepsStock Q (update_items id f)
unfolding update_items
update_items-KeepsStock Q id f = λ db q. q

-- What is asked of a test of the stock: the reservation of an item and the release of an order keep it.
pub record IsStable (engine : Engine) (Q : StockTest) : Type 0 where
  pub reserves :
      (merchant_id order_id : String) (at : Time) (item : ReservationItem)
      → Keeps
          (λ db. Q db.inventory_items db.stock_reservations)
          (reserve_item engine merchant_id order_id at item)
  pub releases :
      (order_id : String) (at : Time)
      → Keeps
          (λ db. Q db.inventory_items db.stock_reservations)
          (release_reserved_stock engine order_id at)

abbrev pub Any : StockTest
Any inventory stock = Unit {0}

some_items-same :
    (items : List ReservationItem) (db : Database) (a : List ReservationItem) (t : Database)
    → some_items items db ≡ (ok a, t)
    → t ≡ db
unfolding some_items
some_items-same [] db a t h = cc h
some_items-same (item ∷ items) db a t h = cc h

module _ (engine : Engine) where
  release_shown :
      (e : Effect) (id : String) (at : Time) → Step Any e (release_reserved_stock engine id at) e
  unfolding release_reserved_stock release_inventory close_reservations release_order_items
  release_shown e id at =
      sequence e e e _ _
        (exec-Step engine e _ (release_inventory id at)
          (elsewhere _ (λ d. refl) (λ d. refl) (λ d. refl)) (λ db q. tt))
        (λ u.
          sequence e e e _ _
            (exec-Step engine e _ (close_reservations id at)
              (elsewhere _ (λ d. refl) (λ d. refl) (λ d. refl)) (λ db q. tt))
            (λ v.
              exec-Step engine e _ (release_order_items id)
                (elsewhere _ (λ d. refl) (λ d. refl) (λ d. refl)) (λ db q. tt)))

  take_candidate-Step :
      (e : Effect) (item : ReservationItem) (at : Time) (row : Option InventoryRow)
      → Step Any e (take_candidate engine item at row) e
  unfolding take_candidate reserve_at
  take_candidate-Step e item at none = kept e _ (λ db a t h. cc h)
  take_candidate-Step e item at (some row) =
      sequence e e e _ _
        (exec-Step engine e _ (reserve_at row.warehouse_id item at)
          (elsewhere _ (λ d. refl) (λ d. refl) (λ d. refl)) (λ db q. tt))
        (λ u. return-Step e _)

  reserve_new-Step :
      (e : Effect) (merchant_id : String) (item : ReservationItem) (at : Time)
      → Step Any e (reserve_new engine merchant_id item at) e
  unfolding reserve_new
  reserve_new-Step e merchant_id item at =
      sequence e e e _ _ (query-Step engine e _ _) (take_candidate-Step e item at)

  reserve_again-Step :
      (e : Effect) (merchant_id : String) (item : ReservationItem) (at : Time)
      (row : Option StockRow)
      → Step Any e (reserve_again engine merchant_id item at row) e
  unfolding reserve_again
  reserve_again-Step e merchant_id item at none = reserve_new-Step e merchant_id item at
  reserve_again-Step e merchant_id item at (some row) = elim (Bool-cases (is_reserved row.status)) [
    | inl held ↦ elim (Bool-cases (row.quantity == item.quantity)) [
      | inl same ↦ rw (held, reserve_again, same) (return-Step e _)
      | inr other ↦ rw (held, reserve_again, other) (kept e _ (λ db a t h. cc h))
    ]
    | inr free ↦ rw (free, reserve_again) (reserve_new-Step e merchant_id item at)
  ]

  reserve_shown :
      (e : Effect) (merchant_id order_id : String) (at : Time) (item : ReservationItem)
      → Step Any e (reserve_item engine merchant_id order_id at item) e
  unfolding reserve_item reserve_inventory_item set_reservation
  reserve_shown e merchant_id order_id at item =
      sequence e e e (reserve_inventory_item engine merchant_id order_id item at) _
        (sequence e e e _ _ (query-Step engine e _ _) (reserve_again-Step e merchant_id item at))
        (λ warehouse.
          sequence e e e _ _
            (exec-Step engine e _ (set_reservation order_id item warehouse at)
              (elsewhere _ (λ d. refl) (λ d. refl) (λ d. refl)) (λ db q. tt))
            (λ u. return-Step e warehouse))

module _ {Q : StockTest} (engine : Engine) where
  pub void_authorized_payment-Step :
      (e : Effect) (id : String) (at : Time) → Step Q e (void_authorized_payment engine id at) e
  unfolding void_authorized_payment void_payment_row void_order_payment database_view
  void_authorized_payment-Step e id at =
      sequence e e e _ _
        (exec-Step engine e _ (void_payment_row id at)
          (elsewhere _ (λ d. refl) (λ d. refl) (λ d. refl)) (λ db q. q))
        (λ u.
          exec-Step engine e _ (void_order_payment id)
            (record {
              status = λ db j. update_keeps _ _ db.orders (λ r. refl) (λ r. refl) j;
              outbox = λ db. refl;
              audits = λ db. refl;
            })
            (λ db q. q))

  pub order_items_for_reservation-Step :
      (e : Effect) (id : String) → Step Q e (order_items_for_reservation engine id) e
  unfolding order_items_for_reservation
  order_items_for_reservation-Step e id =
      sequence e e e _ _ (query-Step engine e _ _)
        (λ rows. kept e _ (some_items-same (reservation_items rows)))

module _ {Q : StockTest} (engine : Engine) (stable : IsStable engine Q) where
  pub release_reserved_stock-Step :
      (e : Effect) (id : String) (at : Time) → Step Q e (release_reserved_stock engine id at) e
  release_reserved_stock-Step e id at =
      join e e _ (release_shown engine e id at) (stable.releases id at)

  reserve_item-Step :
      (e : Effect) (merchant_id order_id : String) (at : Time) (item : ReservationItem)
      → Step Q e (reserve_item engine merchant_id order_id at item) e
  reserve_item-Step e merchant_id order_id at item =
      join e e _ (reserve_shown engine e merchant_id order_id at item)
        (stable.reserves merchant_id order_id at item)

  pub reserve_items-Step :
      (e : Effect) (merchant_id order_id : String) (at : Time) (items : List ReservationItem)
      → Step Q e (reserve_items engine merchant_id order_id at items) e
  unfolding reserve_items
  reserve_items-Step e merchant_id order_id at [] = return-Step e []
  reserve_items-Step e merchant_id order_id at (item ∷ items) =
      sequence e e e _ _ (reserve_item-Step e merchant_id order_id at item) (λ warehouse.
        sequence e e e _ _ (reserve_items-Step e merchant_id order_id at items)
          (λ rest. return-Step e _))
