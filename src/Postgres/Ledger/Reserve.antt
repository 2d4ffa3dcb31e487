-- ===== src/Postgres/Ledger/Reserve.antt =====
-- `reserveInventoryItem` with its upsert keeps the books: what a row has reserved more is what the
-- reservation holds.
use fulfillhub_go_commerce_p.Prelude.{
  ℕ, ◌+◌, ◌≤◌, ◌≡◌, refl, ◌∙◌, String, true, false, ◌&&◌, List, none, some, arith, Bool-cases,
  Option-cases, inl, inr, if◌then◌else◌, str_eq, eq_iff, any,
}
use fulfillhub_go_commerce_p.Commerce.Model.{Time, ReservationStatus, is_reserved}
use fulfillhub_go_commerce_p.Postgres.Tables.{StockRow, select_row, upsert, count, total}
use fulfillhub_go_commerce_p.Postgres.Rows.{nullable_string}
use fulfillhub_go_commerce_p.Postgres.Stock.{ReservationItem, is_reservation}
use fulfillhub_go_commerce_p.Postgres.Ledger.{held}
use fulfillhub_go_commerce_p.Postgres.Ledger.Totals.{
  count-update, count-snoc, total-snoc, total-update, any-count, any-select_row, any-some,
  upsert-there, upsert-absent, select_row-holds,
}

-- The row that `ON CONFLICT DO UPDATE` writes, and the one that is inserted.
abbrev pub renewed : ReservationItem → String → Time → StockRow → StockRow
renewed item warehouse at row = record row {
  warehouse_id = elim (nullable_string warehouse) [ none ↦ row.warehouse_id | some w ↦ some w ];
  quantity = item.quantity;
  status = ReservationStatus.reserved;
  reserved_at = at;
  released_at = none;
}

abbrev pub inserted : String → ReservationItem → String → Time → StockRow
inserted order_id item warehouse at = record {
  order_id = order_id;
  warehouse_id = nullable_string warehouse;
  sku = item.sku;
  quantity = item.quantity;
  status = ReservationStatus.reserved;
  reserved_at = at;
  released_at = none;
}

module _ (order_id : String) (item : ReservationItem) (warehouse : String) (at : Time) where
  abbrev pub booked : List StockRow → List StockRow
  booked stock =
      upsert (is_reservation order_id item.sku) (inserted order_id item warehouse at)
        (renewed item warehouse at) stock

  same_order :
      (o sku : String)
      → is_reservation o sku (inserted order_id item warehouse at) ≡ true
      → order_id ≡ o
  same_order o sku same = ground (arith, same, eq_iff order_id o)

  same_sku :
      (o sku : String)
      → is_reservation o sku (inserted order_id item warehouse at) ≡ true
      → item.sku ≡ sku
  same_sku o sku same = ground (arith, same, eq_iff item.sku sku)

  no_key :
      (o sku : String) (stock : List StockRow)
      → is_reservation o sku (inserted order_id item warehouse at) ≡ true
      → count (is_reservation o sku) stock ≡ count (is_reservation order_id item.sku) stock
  no_key o sku stock same = cc (same_order o sku same, same_sku o sku same)

  pub booked_unique :
      (stock : List StockRow)
      → ((o sku : String) → count (is_reservation o sku) stock ≤ 1)
      → (o sku : String) → count (is_reservation o sku) (booked stock) ≤ 1
  unfolding upsert
  booked_unique stock unique o sku =
      elim (Bool-cases (any (is_reservation order_id item.sku) stock)) [
        | inl there ↦ rw there (
            omega (
              arith,
              count-update (is_reservation o sku) (is_reservation order_id item.sku)
                  (renewed item warehouse at) stock (λ r. refl),
              unique o sku,
            ))
        | inr absent ↦ rw absent (
            rw (count-snoc (is_reservation o sku) stock (inserted order_id item warehouse at))
              (elim (Bool-cases (is_reservation o sku (inserted order_id item warehouse at))) [
                | inl same ↦ rw same (
                    omega (
                      arith,
                      no_key o sku stock same
                          ∙ any-count (is_reservation order_id item.sku) stock absent,
                    ))
                | inr other ↦ rw other (omega (arith, unique o sku))
              ]))
      ]

  abbrev pub taken : String → String → ℕ
  taken v k = if str_eq warehouse v && str_eq item.sku k then item.quantity else 0

  held-inserted :
      (v k : String)
      → str_eq warehouse "" ≡ false
      → held v k (inserted order_id item warehouse at) ≡ taken v k
  unfolding held nullable_string
  held-inserted v k named = rw named (ground arith)

  held-renewed :
      (v k : String) (r : StockRow)
      → str_eq warehouse "" ≡ false
      → is_reservation order_id item.sku r ≡ true
      → held v k (renewed item warehouse at r) ≡ taken v k
  unfolding held nullable_string
  held-renewed v k r named mine = rw named (ground (arith, mine, eq_iff r.sku item.sku))

  held-free : (v k : String) (r : StockRow) → is_reserved r.status ≡ false → held v k r ≡ 0
  unfolding held
  held-free v k r h = ground (arith, h)

  -- A reservation that was not live before adds what it holds now.
  pub booked-total :
      (v k : String) (stock : List StockRow)
      → count (is_reservation order_id item.sku) stock ≤ 1
      → str_eq warehouse "" ≡ false
      → ((r : StockRow)
          → select_row (is_reservation order_id item.sku) stock ≡ some r
          → is_reserved r.status ≡ false)
      → total (held v k) (booked stock) ≡ total (held v k) stock + taken v k
  booked-total v k stock one named free =
      let mine = is_reservation order_id item.sku in
      let new = inserted order_id item warehouse at in
      let renew = renewed item warehouse at in
      elim (Option-cases (select_row mine stock)) [
        | inl absent ↦
            rw (upsert-absent mine new renew stock (any-select_row mine stock absent))
              (omega (arith, total-snoc (held v k) stock new, held-inserted v k named))
        | inr (r, there) ↦ rw (upsert-there mine new renew stock (any-some mine stock r there)) (
            omega (
              arith,
              total-update mine renew (held v k) stock r one there,
              held-free v k r (free r there),
              held-renewed v k r named (select_row-holds mine stock r there),
            ))
      ]

  -- A reservation that is live already holds the same again.
  pub booked_again-total :
      (v k : String) (stock : List StockRow) (r : StockRow)
      → count (is_reservation order_id item.sku) stock ≤ 1
      → select_row (is_reservation order_id item.sku) stock ≡ some r
      → held v k (renewed item warehouse at r) ≡ held v k r
      → total (held v k) (booked stock) ≡ total (held v k) stock
  booked_again-total v k stock r one there same =
      let mine = is_reservation order_id item.sku in
      let new = inserted order_id item warehouse at in
      let renew = renewed item warehouse at in
      rw (upsert-there mine new renew stock (any-some mine stock r there))
        (omega (arith, total-update mine renew (held v k) stock r one there, same))
