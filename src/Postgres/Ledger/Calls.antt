-- ===== src/Postgres/Ledger/Calls.antt =====
-- Every call of internal/postgres/store.go keeps the books.
use mathlib.Core.Option.{some-injective}
use fulfillhub_go_commerce_p.Prelude.{
  ◌≡◌, refl, sym, ap, ◌∙◌, subst, String, true, false, List, [], ◌∷◌, map, Option, none, some,
  arith, Bool-cases, Option-cases, inl, inr, str_eq, eq_refl, All, get_or, ◌==◌,
}
use fulfillhub_go_commerce_p.Commerce.Model.{Time, is_reserved}
use fulfillhub_go_commerce_p.Commerce.Result.{Result, ok, err, ◌>>◌, return}
use fulfillhub_go_commerce_p.Commerce.Ensures.{Keeps, bind-ok}
use fulfillhub_go_commerce_p.Commerce.Store.History.{Call}
use fulfillhub_go_commerce_p.Postgres.Tables.{Database, InventoryRow, StockRow, select_row, update}
use fulfillhub_go_commerce_p.Postgres.{Engine, exec, query}
use fulfillhub_go_commerce_p.Postgres.Rows.{nullable_string}
use fulfillhub_go_commerce_p.Postgres.Stock.{
  ReservationItem, is_reservation, is_stock, candidate, take_stock, reserve_at, set_reservation,
  reserve_item, reserve_inventory_item, reserve_again, reserve_new, take_candidate,
  release_reserved_stock, release_inventory, close_reservations, release_order_items,
}
use fulfillhub_go_commerce_p.Postgres.Rules.{exec-ok, query-ok}
use fulfillhub_go_commerce_p.Postgres.Calls.{apply}
use fulfillhub_go_commerce_p.Postgres.Contract.{StockTest}
use fulfillhub_go_commerce_p.Postgres.Contract.Calls.{successful_call-IsKept}
use fulfillhub_go_commerce_p.Postgres.Ledger.{held, hand, OnHand, reserved_for, IsBalanced}
use fulfillhub_go_commerce_p.Postgres.Ledger.Totals.{count-update}
use fulfillhub_go_commerce_p.Postgres.Ledger.Candidate.{
  In-only, named-In, candidate-In, enough, taken-hand, taken-named, taken-reserved,
}
use fulfillhub_go_commerce_p.Postgres.Ledger.Reserve.{
  booked, booked_unique, booked-total, booked_again-total, renewed,
}
use fulfillhub_go_commerce_p.Postgres.Ledger.Release.{release-IsBalanced, release-hand}

-- The books balance, and each row has on hand what it had.
abbrev pub Books : List OnHand → StockTest
Books start inventory stock = IsBalanced inventory stock × (map hand inventory ≡ start)

same_reserved :
    (rows : List InventoryRow) (before after : List StockRow)
    → ((row : InventoryRow) → reserved_for after row ≡ reserved_for before row)
    → All (λ row. row.reserved_quantity ≡ reserved_for before row) rows
    → All (λ row. row.reserved_quantity ≡ reserved_for after row) rows
same_reserved [] before after same h = tt
same_reserved (row ∷ rows) before after same (h, hs) =
    (h ∙ sym (same row), same_reserved rows before after same hs)

module _ (start : List OnHand) (order_id merchant_id : String) (item : ReservationItem) (at : Time)
    (db : Database) (books : Books start db.inventory_items db.stock_reservations) where
  abbrev mine : Option StockRow
  mine = select_row (is_reservation order_id item.sku) db.stock_reservations

  -- A row taken from, and the reservation booked.
  books-new :
      (r : InventoryRow)
      → candidate merchant_id item db ≡ some r
      → ((s : StockRow) → mine ≡ some s → is_reserved s.status ≡ false)
      → Books start
          (update
            (is_stock r.warehouse_id item.sku)
            (take_stock item.quantity at)
            db.inventory_items)
          (booked order_id item r.warehouse_id at db.stock_reservations)
  unfolding take_stock
  books-new r picked free =
      let b = books.0 in
      let w = r.warehouse_id in
      let (listed, named_sku, fits) = candidate-In merchant_id item db r picked in
      let key : is_stock w item.sku r ≡ true = ground (arith, named_sku, eq_refl w) in
      let named = named-In db.inventory_items r listed b.warehouses_named in
      let only =
        In-only w item.sku db.inventory_items r listed key (b.inventory_unique w item.sku) in
      (
        record {
          reservations_unique =
              booked_unique order_id item w at db.stock_reservations b.reservations_unique;
          inventory_unique = λ v k. omega (
            arith,
            count-update (is_stock v k) (is_stock w item.sku) (take_stock item.quantity at)
                db.inventory_items (λ row. refl),
            b.inventory_unique v k,
          );
          warehouses_named =
              taken-named w item.sku item.quantity at db.inventory_items b.warehouses_named;
          reserved =
              taken-reserved w item.sku item.quantity at db.stock_reservations _
                (λ row.
                  booked-total order_id item w at row.warehouse_id row.sku db.stock_reservations
                    (b.reservations_unique order_id item.sku) named free)
                db.inventory_items b.reserved;
        },
        taken-hand w item.sku item.quantity at db.inventory_items
              (enough w item.sku item.quantity at r db.inventory_items fits only)
            ∙ books.1,
      )

  held-again :
      (v k : String) (s : StockRow)
      → is_reserved s.status ≡ true
      → (s.quantity == item.quantity) ≡ true
      → held v k (renewed item (get_or s.warehouse_id "") at s) ≡ held v k s
  unfolding held nullable_string
  held-again v k s live same = elim (Option-cases s.warehouse_id) [
    | inl e ↦ rw e (ground (arith, live, same))
    | inr (w, e) ↦ elim (Bool-cases (str_eq w "")) [
      | inl blank ↦ rw (e, blank) (ground (arith, live, same))
      | inr named ↦ rw (e, named) (ground (arith, live, same))
    ]
  ]

  again-total :
      (s : StockRow)
      → mine ≡ some s
      → is_reserved s.status ≡ true
      → (s.quantity == item.quantity) ≡ true
      → (row : InventoryRow)
      → reserved_for (booked order_id item (get_or s.warehouse_id "") at db.stock_reservations) row
        ≡ reserved_for db.stock_reservations row
  again-total s there live same row =
      booked_again-total order_id item (get_or s.warehouse_id "") at row.warehouse_id row.sku
        db.stock_reservations s (books.0.reservations_unique order_id item.sku) there
        (held-again row.warehouse_id row.sku s live same)

  -- A live reservation booked again.
  books-again :
      (s : StockRow)
      → mine ≡ some s
      → is_reserved s.status ≡ true
      → (s.quantity == item.quantity) ≡ true
      → Books start db.inventory_items
          (booked order_id item (get_or s.warehouse_id "") at db.stock_reservations)
  books-again s there live same =
      let b = books.0 in
      (
        record {
          reservations_unique =
              booked_unique order_id item (get_or s.warehouse_id "") at db.stock_reservations
                b.reservations_unique;
          inventory_unique = b.inventory_unique;
          warehouses_named = b.warehouses_named;
          reserved =
              same_reserved db.inventory_items _ _ (again-total s there live same) b.reserved;
        },
        books.1,
      )

module _ (engine : Engine) (start : List OnHand) (order_id merchant_id : String)
    (item : ReservationItem) (at : Time) (db : Database)
    (books : Books start db.inventory_items db.stock_reservations) where
  -- The books balance once the reservation of the item is booked at the warehouse.
  abbrev IsReady : String → Database → Type 0
  IsReady w u = Books start u.inventory_items (booked order_id item w at u.stock_reservations)

  ready :
      {v w : String} {t u : Database}
      → Path (Result String × Database) (ok v, t) (ok w, u)
      → IsReady v t
      → IsReady w u
  ready {v} h r = subst (λ p. IsReady (elim p.0 [ ok x ↦ x | err e ↦ v ]) p.1) h r

  take_candidate-IsReady :
      (c : Option InventoryRow)
      → candidate merchant_id item db ≡ c
      → ((s : StockRow)
          → mine start order_id merchant_id item at db books ≡ some s
          → is_reserved s.status ≡ false)
      → (w : String) (u : Database) → take_candidate engine item at c db ≡ (ok w, u)
      → IsReady w u
  unfolding take_candidate reserve_at
  take_candidate-IsReady none picked free w u h = cc h
  take_candidate-IsReady (some r) picked free w u h =
      let (x, v, taken_from, done) =
        bind-ok (exec engine "reserve inventory item" (reserve_at r.warehouse_id item at))
          (λ y. return r.warehouse_id) db w u h in
      let same : Path (Result String × Database) (ok r.warehouse_id, v) (ok w, u) = done in
      ready same (
        subst (IsReady r.warehouse_id) (sym (exec-ok engine _ _ db v taken_from))
          (books-new start order_id merchant_id item at db books r picked free))

  reserve_new-IsReady :
      ((s : StockRow)
        → mine start order_id merchant_id item at db books ≡ some s
        → is_reserved s.status ≡ false)
      → (w : String) (u : Database) → reserve_new engine merchant_id item at db ≡ (ok w, u)
      → IsReady w u
  unfolding reserve_new
  reserve_new-IsReady free w u h =
      let (c, v, asked, rest) =
        bind-ok (query engine "reserve inventory item" (candidate merchant_id item))
          (take_candidate engine item at) db w u h in
      let (picked, same) = query-ok engine _ _ db c v asked in
      take_candidate-IsReady c (sym picked) free w u
        (subst (λ d. take_candidate engine item at c d ≡ (ok w, u)) same rest)

  reserve_again-IsReady :
      (o : Option StockRow)
      → mine start order_id merchant_id item at db books ≡ o
      → (w : String) (u : Database) → reserve_again engine merchant_id item at o db ≡ (ok w, u)
      → IsReady w u
  unfolding reserve_again
  reserve_again-IsReady none there w u h = reserve_new-IsReady (λ s e. cc (there, e)) w u h
  reserve_again-IsReady (some s) there w u h = elim (Bool-cases (is_reserved s.status)) [
    | inl live ↦ elim (Bool-cases (s.quantity == item.quantity)) [
      | inl same ↦
          ready (rw (live, reserve_again, same) at h)
            (books-again start order_id merchant_id item at db books s there live same)
      | inr other ↦ cc (rw (live, reserve_again, other) at h)
    ]
    | inr free ↦
        reserve_new-IsReady
          (λ r e. ap (λ x. is_reserved x.status) (some-injective r s (sym e ∙ there)) ∙ free) w u
          (rw (free, reserve_again) at h)
  ]

module _ (engine : Engine) (start : List OnHand) where
  abbrev DatabaseBooks : Database → Type 0
  DatabaseBooks db = Books start db.inventory_items db.stock_reservations

  reserve_item-Keeps :
      (merchant_id order_id : String) (at : Time) (item : ReservationItem)
      → Keeps DatabaseBooks (reserve_item engine merchant_id order_id at item)
  unfolding reserve_item reserve_inventory_item set_reservation
  reserve_item-Keeps merchant_id order_id at item db books w t h =
      let upsert_at = λ (v : String).
        exec engine "upsert stock reservation" (set_reservation order_id item v at) in
      let (v, u, reserved, rest) =
        bind-ok (reserve_inventory_item engine merchant_id order_id item at)
          (λ v. upsert_at v >> return v) db w t h in
      let (o, d, locked, again) =
        bind-ok
          (query engine "lock existing stock reservation"
            (λ d. select_row (is_reservation order_id item.sku) d.stock_reservations))
          (reserve_again engine merchant_id item at) db v u reserved in
      let (read, same) = query-ok engine _ _ db o d locked in
      let (x, s, booking, done) = bind-ok (upsert_at v) (λ y. return v) u w t rest in
      let written : t ≡ set_reservation order_id item v at u =
        sym (ap (λ p. p.1) done) ∙ exec-ok engine _ _ u s booking in
      subst DatabaseBooks (sym written) (
        reserve_again-IsReady engine start order_id merchant_id item at db books o (sym read) v u
          (subst (λ e. reserve_again engine merchant_id item at o e ≡ (ok v, u)) same again))

  release_reserved_stock-Keeps :
      (order_id : String) (at : Time)
      → Keeps DatabaseBooks (release_reserved_stock engine order_id at)
  unfolding release_reserved_stock release_inventory close_reservations release_order_items
  release_reserved_stock-Keeps order_id at db books a t h =
      let closing = exec engine "release stock reservations" (close_reservations order_id at) in
      let freeing = exec engine "release order items" (release_order_items order_id) in
      let (x, u, first, rest) =
        bind-ok (exec engine "release inventory items" (release_inventory order_id at))
          (λ y. closing >> freeing) db a t h in
      let (y, v, second, third) = bind-ok closing (λ z. freeing) u a t rest in
      let same : t
          ≡ release_order_items order_id
              (close_reservations order_id at (release_inventory order_id at db)) =
        exec-ok engine _ _ v t third
        ∙ ap (release_order_items order_id) (
            exec-ok engine _ _ u v second
            ∙ ap (close_reservations order_id at) (exec-ok engine _ _ db u first)) in
      subst DatabaseBooks (sym same) (
        release-IsBalanced order_id at db.inventory_items db.stock_reservations books.0,
        release-hand order_id at db.stock_reservations (books.0.reservations_unique order_id)
              db.inventory_items books.0.reserved
            ∙ books.1,
      )

  -- Where the books balance before a call and it succeeds, they balance after it: the reserved quantity
  -- of each stock row is the sum of the live reservations of its warehouse and sku, and each row has on
  -- hand, reserved or not, what it had.
  pub successful_call-Books :
      (c : Call) (db t : Database)
      → Books start db.inventory_items db.stock_reservations
      → apply engine c db ≡ (ok tt, t)
      → Books start t.inventory_items t.stock_reservations
  successful_call-Books c db t books h =
      (successful_call-IsKept {Q = Books start} engine
        (record { reserves = reserve_item-Keeps; releases = release_reserved_stock-Keeps }) c db t
        books h).1
