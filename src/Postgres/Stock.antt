-- ===== src/Postgres/Stock.antt =====
-- internal/postgres/store.go: `reserveInventoryItem`, `releaseInventoryItems`, `releaseReservedStock`
-- and `voidAuthorizedPayment`. `inventory_items` has one row for a warehouse and a sku, and
-- `stock_reservations` one for an order and a sku.
use fulfillhub_go_commerce_p.Prelude.{
  ℕ, ◌+◌, ◌-◌, leb, ltb, ◌==◌, String, Bool, true, false, not, ◌&&◌, List, [], ◌∷◌, any, Option,
  none, some, str_eq, if◌then◌else◌, get_or,
}
use fulfillhub_go_commerce_p.Prelude.Text.{◌++◌}
use fulfillhub_go_commerce_p.Commerce.Model.{Time, ReservationStatus, is_reserved}
use fulfillhub_go_commerce_p.Commerce.Result.{
  Op, ok, err, failure, insufficient_stock, not_found, return, fail, ◌>>=◌, ◌>>◌,
}
use fulfillhub_go_commerce_p.Postgres.Tables.{
  Database, ItemRow, InventoryRow, StockRow, WarehouseRow, select, select_row, update, upsert,
}
use fulfillhub_go_commerce_p.Postgres.{Engine, exec, query}
use fulfillhub_go_commerce_p.Postgres.Rows.{is_order, is_item_of, nullable_string}

pub record ReservationItem : Type 0 where
  pub sku : String
  pub quantity : ℕ

unfoldable pub reservation_items : List ItemRow → List ReservationItem
reservation_items [] = []
reservation_items (row ∷ rows) =
    record { sku = row.sku; quantity = row.quantity } ∷ reservation_items rows

unfoldable pub some_items : List ReservationItem → Op Database (List ReservationItem)
some_items [] db = (err not_found, db)
some_items (item ∷ items) db = (ok (item ∷ items), db)

module _ (engine : Engine) where
  unfoldable pub order_items_for_reservation : String → Op Database (List ReservationItem)
  unfolding reservation_items some_items
  order_items_for_reservation id = do
    rows ←
        query engine "load order items for reservation"
          (λ db. select (is_item_of id) db.order_items)
    some_items (reservation_items rows)

abbrev pub is_reservation : String → String → StockRow → Bool
is_reservation order_id sku row = str_eq row.order_id order_id && str_eq row.sku sku

abbrev pub is_stock : String → String → InventoryRow → Bool
is_stock warehouse sku row = str_eq row.warehouse_id warehouse && str_eq row.sku sku

abbrev is_active_warehouse : String → String → WarehouseRow → Bool
is_active_warehouse merchant_id id w =
    str_eq w.id id && str_eq w.merchant_id merchant_id && str_eq w.status "active"

-- The rows that the `candidate` query may take.
unfoldable pub is_candidate : String → ReservationItem → List WarehouseRow → InventoryRow → Bool
is_candidate merchant_id item warehouses row =
    any (is_active_warehouse merchant_id row.warehouse_id) warehouses
    && str_eq row.sku item.sku
    && leb item.quantity row.available_quantity

-- `ORDER BY available_quantity DESC, id ASC LIMIT 1`: `best` stands before `rows`.
unfoldable pub most_available : Option InventoryRow → List InventoryRow → Option InventoryRow
most_available best [] = best
most_available none (row ∷ rows) = most_available (some row) rows
most_available (some best) (row ∷ rows) =
    let kept = most_available (some best) rows in
    let taken = most_available (some row) rows in
    if ltb best.available_quantity row.available_quantity then taken else kept

unfoldable pub candidate : String → ReservationItem → Database → Option InventoryRow
unfolding is_candidate most_available
candidate merchant_id item db =
    most_available none (select (is_candidate merchant_id item db.warehouses) db.inventory_items)

unfoldable pub take_stock : ℕ → Time → InventoryRow → InventoryRow
take_stock quantity at row = record row {
  available_quantity = row.available_quantity - quantity;
  reserved_quantity = row.reserved_quantity + quantity;
  updated_at = at;
}

unfoldable pub reserve_at : String → ReservationItem → Time → Database → Database
unfolding take_stock
reserve_at warehouse item at db = record db {
  inventory_items =
      update (is_stock warehouse item.sku) (take_stock item.quantity at) db.inventory_items;
}

-- `INSERT INTO stock_reservations … ON CONFLICT (order_id, sku) DO UPDATE`.
unfoldable pub set_reservation : String → ReservationItem → String → Time → Database → Database
unfolding nullable_string
set_reservation order_id item warehouse at db = record db {
  stock_reservations =
      upsert (is_reservation order_id item.sku)
        (record {
          order_id = order_id;
          warehouse_id = nullable_string warehouse;
          sku = item.sku;
          quantity = item.quantity;
          status = ReservationStatus.reserved;
          reserved_at = at;
          released_at = none;
        })
        (λ row. record row {
          warehouse_id = elim (nullable_string warehouse) [
            | none ↦ row.warehouse_id
            | some w ↦ some w
          ];
          quantity = item.quantity;
          status = ReservationStatus.reserved;
          reserved_at = at;
          released_at = none;
        })
        db.stock_reservations;
}

module _ (engine : Engine) where
  unfoldable pub take_candidate : ReservationItem → Time → Option InventoryRow → Op Database String
  take_candidate item at none = fail (insufficient_stock (some item.sku))
  take_candidate item at (some row) = do
    exec engine "reserve inventory item" (reserve_at row.warehouse_id item at)
    return row.warehouse_id

  -- One statement finds the row and updates it.
  unfoldable pub reserve_new : String → ReservationItem → Time → Op Database String
  unfolding take_candidate
  reserve_new merchant_id item at =
      query engine "reserve inventory item" (candidate merchant_id item) >>= take_candidate item at

  unfoldable pub reserve_again :
      String → ReservationItem → Time → Option StockRow → Op Database String
  unfolding reserve_new
  reserve_again merchant_id item at none = reserve_new merchant_id item at
  reserve_again merchant_id item at (some row) =
      if is_reserved row.status
      then (if row.quantity == item.quantity
          then return (get_or row.warehouse_id "")
          else fail (failure ("reservation quantity mismatch for sku " ++ item.sku)))
      else reserve_new merchant_id item at

  unfoldable pub reserve_inventory_item :
      String → String → ReservationItem → Time → Op Database String
  unfolding reserve_again
  reserve_inventory_item merchant_id order_id item at =
      query engine "lock existing stock reservation"
        (λ db. select_row (is_reservation order_id item.sku) db.stock_reservations)
      >>= reserve_again merchant_id item at

  -- The body of the loop of `RecordInventoryReserved`: the warehouse of the item.
  unfoldable pub reserve_item : String → String → Time → ReservationItem → Op Database String
  unfolding reserve_inventory_item set_reservation
  reserve_item merchant_id order_id at item = do
    warehouse ← reserve_inventory_item merchant_id order_id item at
    exec engine "upsert stock reservation" (set_reservation order_id item warehouse at)
    return warehouse

  unfoldable pub reserve_items :
      String → String → Time → List ReservationItem → Op Database (List (ReservationItem × String))
  unfolding reserve_item
  reserve_items merchant_id order_id at [] = return []
  reserve_items merchant_id order_id at (item ∷ items) = do
    warehouse ← reserve_item merchant_id order_id at item
    rest ← reserve_items merchant_id order_id at items
    return ((item, warehouse) ∷ rest)

unfoldable pub is_held_at : String → InventoryRow → StockRow → Bool
is_held_at order_id row r = elim r.warehouse_id [
  | none ↦ false
  | some w ↦
      str_eq r.order_id order_id
      && is_reserved r.status
      && str_eq w row.warehouse_id
      && str_eq r.sku row.sku
]

unfoldable pub give_back : Time → InventoryRow → Option StockRow → InventoryRow
give_back at row none = row
give_back at row (some r) = record row {
  available_quantity = row.available_quantity + r.quantity;
  reserved_quantity = row.reserved_quantity - r.quantity;
  updated_at = at;
}

-- `UPDATE … FROM stock_reservations`, with one reservation at most for a row.
unfoldable pub release_rows : String → Time → List StockRow → List InventoryRow → List InventoryRow
unfolding give_back is_held_at
release_rows order_id at stock [] = []
release_rows order_id at stock (row ∷ rows) =
    give_back at row (select_row (is_held_at order_id row) stock)
    ∷ release_rows order_id at stock rows

unfoldable pub release_inventory : String → Time → Database → Database
unfolding release_rows
release_inventory order_id at db = record db {
  inventory_items = release_rows order_id at db.stock_reservations db.inventory_items;
}

abbrev pub is_live : String → StockRow → Bool
is_live order_id r =
    str_eq r.order_id order_id
    && not (elim r.status [ ReservationStatus.released ↦ true | _ ↦ false ])

unfoldable pub close_reservations : String → Time → Database → Database
close_reservations order_id at db = record db {
  stock_reservations =
      update (is_live order_id)
        (λ r. record r { status = ReservationStatus.released; released_at = some at })
        db.stock_reservations;
}

unfoldable pub release_order_items : String → Database → Database
release_order_items order_id db = record db {
  order_items =
      update (λ i. is_item_of order_id i && is_reserved i.reservation_status)
        (λ i. record i { reservation_status = ReservationStatus.released }) db.order_items;
}

abbrev is_text : Option String → String → Bool
is_text none s = false
is_text (some t) s = str_eq t s

unfoldable pub void_payment_row : String → Time → Database → Database
void_payment_row order_id at db = record db {
  payment_authorizations =
      update (λ p. str_eq p.order_id order_id && str_eq p.status "authorized")
        (λ p. record p { status = "voided"; voided_at = some at }) db.payment_authorizations;
}

unfoldable pub void_order_payment : String → Database → Database
void_order_payment order_id db = record db {
  orders =
      update (λ row. is_order order_id row && is_text row.payment_status "authorized")
        (λ row. record row { payment_status = some "voided" }) db.orders;
}

module _ (engine : Engine) where
  unfoldable pub release_reserved_stock : String → Time → Op Database (Unit {0})
  release_reserved_stock order_id at = do
    exec engine "release inventory items" (release_inventory order_id at)
    exec engine "release stock reservations" (close_reservations order_id at)
    exec engine "release order items" (release_order_items order_id)

  unfoldable pub void_authorized_payment : String → Time → Op Database (Unit {0})
  void_authorized_payment order_id at = do
    exec engine "void payment authorization" (void_payment_row order_id at)
    exec engine "void order payment" (void_order_payment order_id)
