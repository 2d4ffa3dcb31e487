-- ===== src/Postgres/Ledger/Release.antt =====
-- `releaseReservedStock` keeps the books: what an order held goes back, and nothing else moves.
use fulfillhub_go_commerce_p.Prelude.{
  ℕ, ◌+◌, ◌≤◌, ◌≡◌, refl, ap, ◌∙◌, String, true, false, List, [], ◌∷◌, map, Option, none, some,
  arith, Bool-cases, inl, inr, if◌then◌else◌, str_eq, All,
}
use fulfillhub_go_commerce_p.Commerce.Model.{Time, ReservationStatus}
use fulfillhub_go_commerce_p.Postgres.Tables.{
  InventoryRow, StockRow, select_row, update, count, total,
}
use fulfillhub_go_commerce_p.Postgres.Stock.{
  is_reservation, is_stock, is_held_at, is_live, give_back, release_rows,
}
use fulfillhub_go_commerce_p.Postgres.Ledger.{held, hand, quantity_if, reserved_for, IsBalanced}
use fulfillhub_go_commerce_p.Postgres.Ledger.Totals.{count-update, total-none}

abbrev pub close : Time → StockRow → StockRow
close at r = record r { status = ReservationStatus.released; released_at = some at }

module _ (order_id : String) (at : Time) where
  -- What an order holds of a row's stock.
  abbrev order_held : InventoryRow → StockRow → ℕ
  order_held row r = quantity_if (is_held_at order_id row r) r

  held-close :
      (row : InventoryRow) (r : StockRow)
      → held row.warehouse_id row.sku r
        ≡ held row.warehouse_id row.sku (if is_live order_id r then close at r else r)
          + order_held row r
  unfolding held is_held_at
  held-close row r = ground arith

  total-close :
      (row : InventoryRow) (stock : List StockRow)
      → reserved_for stock row
        ≡ reserved_for (update (is_live order_id) (close at) stock) row
          + total (order_held row) stock
  unfolding total
  total-close row [] = refl
  total-close row (r ∷ stock) = omega (arith, held-close row r, total-close row stock)

  -- An order with one reservation of the sku holds the quantity of that one.
  held-reservation :
      (row : InventoryRow) (r : StockRow)
      → is_held_at order_id row r ≡ true
      → is_reservation order_id row.sku r ≡ true
  unfolding is_held_at
  held-reservation row r h = ground (arith, h)

  held_elsewhere :
      (row : InventoryRow) (r : StockRow)
      → is_reservation order_id row.sku r ≡ false
      → order_held row r ≡ 0
  held_elsewhere row r miss = elim (Bool-cases (is_held_at order_id row r)) [
    | inl hit ↦ cc (held-reservation row r hit, miss)
    | inr other ↦ rw other refl
  ]

  none_left :
      (row : InventoryRow) (stock : List StockRow)
      → count (is_reservation order_id row.sku) stock ≡ 0
      → total (order_held row) stock ≡ 0
  none_left row stock zero =
      total-none (is_reservation order_id row.sku) (order_held row) stock (held_elsewhere row) zero

  total-held :
      (row : InventoryRow) (stock : List StockRow)
      → count (is_reservation order_id row.sku) stock ≤ 1
      → total (order_held row) stock
        ≡ elim (select_row (is_held_at order_id row) stock) [ none ↦ 0 | some r ↦ r.quantity ]
  unfolding total count select_row
  total-held row [] one = refl
  total-held row (r ∷ stock) one = elim (Bool-cases (is_held_at order_id row r)) [
    | inl hit ↦ rw hit (ground (arith, one, hit, held-reservation row r hit, none_left row stock))
    | inr miss ↦ rw miss (ground (arith, one, total-held row stock))
  ]

  given_back :
      (row : InventoryRow) (stock : List StockRow) (h : Option StockRow)
      → row.reserved_quantity
        ≡ reserved_for (update (is_live order_id) (close at) stock) row
          + elim h [ none ↦ 0 | some r ↦ r.quantity ]
      → ((give_back at row h).reserved_quantity
          ≡ reserved_for (update (is_live order_id) (close at) stock) (give_back at row h))
        × (hand (give_back at row h) ≡ hand row)
  unfolding give_back
  given_back row stock none e = (omega (arith, e), refl)
  given_back row stock (some r) e = (
    omega (arith, e),
    ap (λ n. record { warehouse_id = row.warehouse_id; sku = row.sku; quantity = n })
        (omega (arith, e)),
  )

  module _ (stock : List StockRow)
      (unique : (sku : String) → count (is_reservation order_id sku) stock ≤ 1) where
    released_row :
        (row : InventoryRow)
        → row.reserved_quantity ≡ reserved_for stock row
        → ((give_back at row (select_row (is_held_at order_id row) stock)).reserved_quantity
            ≡ reserved_for
                (update (is_live order_id) (close at) stock)
                (give_back at row (select_row (is_held_at order_id row) stock)))
          × (hand (give_back at row (select_row (is_held_at order_id row) stock)) ≡ hand row)
    released_row row e = given_back row stock (select_row (is_held_at order_id row) stock) (
        e
        ∙ (total-close row stock
            ∙ ap (λ n. reserved_for (update (is_live order_id) (close at) stock) row + n)
                (total-held row stock (unique row.sku))))

    pub release-reserved :
        (rows : List InventoryRow)
        → All (λ row. row.reserved_quantity ≡ reserved_for stock row) rows
        → All
            (λ row.
              row.reserved_quantity ≡ reserved_for (update (is_live order_id) (close at) stock) row)
            (release_rows order_id at stock rows)
    unfolding release_rows
    release-reserved [] h = tt
    release-reserved (row ∷ rows) (h, hs) = ((released_row row h).0, release-reserved rows hs)

    pub release-hand :
        (rows : List InventoryRow)
        → All (λ row. row.reserved_quantity ≡ reserved_for stock row) rows
        → map hand (release_rows order_id at stock rows) ≡ map hand rows
    unfolding release_rows
    release-hand [] h = refl
    release-hand (row ∷ rows) (h, hs) = cc ((released_row row h).1, release-hand rows hs)

    either_key :
        (row : InventoryRow) (h : Option StockRow)
        → ((give_back at row h).warehouse_id ≡ row.warehouse_id)
          × ((give_back at row h).sku ≡ row.sku)
    unfolding give_back
    either_key row none = (refl, refl)
    either_key row (some r) = (refl, refl)

    pub release-named :
        (rows : List InventoryRow)
        → All (λ row. str_eq row.warehouse_id "" ≡ false) rows
        → All (λ row. str_eq row.warehouse_id "" ≡ false) (release_rows order_id at stock rows)
    unfolding release_rows
    release-named [] h = tt
    release-named (row ∷ rows) (h, hs) = (
      ap (λ w. str_eq w "") (either_key row (select_row (is_held_at order_id row) stock)).0 ∙ h,
      release-named rows hs,
    )

    pub release-count :
        (warehouse sku : String) (rows : List InventoryRow)
        → count (is_stock warehouse sku) (release_rows order_id at stock rows)
          ≡ count (is_stock warehouse sku) rows
    unfolding release_rows count
    release-count warehouse sku [] = refl
    release-count warehouse sku (row ∷ rows) =
        let (w, k) = either_key row (select_row (is_held_at order_id row) stock) in
        ground (
          arith,
          ap (λ x. str_eq x warehouse) w,
          ap (λ x. str_eq x sku) k,
          release-count warehouse sku rows,
        )

pub release-IsBalanced :
    (order_id : String) (at : Time) (inventory : List InventoryRow) (stock : List StockRow)
    → IsBalanced inventory stock
    → IsBalanced
        (release_rows order_id at stock inventory)
        (update (is_live order_id) (close at) stock)
release-IsBalanced order_id at inventory stock b = record {
  reservations_unique = λ o sku. omega (
    arith,
    count-update (is_reservation o sku) (is_live order_id) (close at) stock (λ r. refl),
    b.reservations_unique o sku,
  );
  inventory_unique = λ w sku. omega (
    arith,
    release-count order_id at stock (b.reservations_unique order_id) w sku inventory,
    b.inventory_unique w sku,
  );
  warehouses_named =
      release-named order_id at stock (b.reservations_unique order_id) inventory b.warehouses_named;
  reserved =
      release-reserved order_id at stock (b.reservations_unique order_id) inventory b.reserved;
}
