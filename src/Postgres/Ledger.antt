-- ===== src/Postgres/Ledger.antt =====
-- The stock of internal/postgres/store.go: what a row of `inventory_items` has reserved against the
-- reservations of `stock_reservations`, and what is on hand.
pub mod Totals
pub mod Candidate
pub mod Reserve
pub mod Release
pub mod Calls
use fulfillhub_go_commerce_p.Prelude.{
  ℕ, ◌+◌, ◌≤◌, ◌≡◌, String, Bool, true, false, ◌&&◌, List, map, Option, none, some, str_eq,
  if◌then◌else◌, All,
}
use fulfillhub_go_commerce_p.Commerce.Model.{is_reserved}
use fulfillhub_go_commerce_p.Postgres.Tables.{InventoryRow, StockRow, count, total}
use fulfillhub_go_commerce_p.Postgres.Stock.{is_reservation, is_stock}

abbrev pub quantity_if : Bool → StockRow → ℕ
quantity_if true r = r.quantity
quantity_if false r = 0

abbrev pub is_at : String → String → StockRow → Bool
is_at warehouse sku r = elim r.warehouse_id [
  | none ↦ false
  | some w ↦ str_eq w warehouse && str_eq r.sku sku && is_reserved r.status
]

-- What a reservation holds of the stock of a sku in a warehouse.
unfoldable pub held : String → String → StockRow → ℕ
held warehouse sku r = quantity_if (is_at warehouse sku r) r

abbrev pub reserved_for : List StockRow → InventoryRow → ℕ
reserved_for stock row = total (held row.warehouse_id row.sku) stock

-- The keys of the two tables, and every row's reserved quantity as the sum of its live reservations.
pub record IsBalanced (inventory : List InventoryRow) (stock : List StockRow) : Type 0 where
  pub reservations_unique : (order_id sku : String) → count (is_reservation order_id sku) stock ≤ 1
  pub inventory_unique : (warehouse sku : String) → count (is_stock warehouse sku) inventory ≤ 1
  pub warehouses_named : All (λ row. str_eq row.warehouse_id "" ≡ false) inventory
  pub reserved : All (λ row. row.reserved_quantity ≡ reserved_for stock row) inventory

-- What each row has on hand, reserved or not.
pub record OnHand : Type 0 where
  pub warehouse_id : String
  pub sku : String
  pub quantity : ℕ

abbrev pub hand : InventoryRow → OnHand
hand row = record {
  warehouse_id = row.warehouse_id;
  sku = row.sku;
  quantity = row.available_quantity + row.reserved_quantity;
}
