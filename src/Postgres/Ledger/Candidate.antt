-- ===== src/Postgres/Ledger/Candidate.antt =====
-- The row that `reserveInventoryItem` takes from: it is one of the table, it has enough, and no other
-- row stands for its warehouse and sku.
use mathlib.Core.Option.{some-injective}
use fulfillhub_go_commerce_p.Prelude.{
  ℕ, ◌+◌, ◌≤◌, ◌≡◌, refl, sym, ap, ◌∙◌, subst, String, Bool, true, false, ◌&&◌, List, [], ◌∷◌, map,
  Option, none, some, arith, Bool-cases, inl, inr, ◌⊎◌, if◌then◌else◌, str_eq, eq_iff, All, ltb,
}
use fulfillhub_go_commerce_p.Commerce.Model.{Time}
use fulfillhub_go_commerce_p.Postgres.Tables.{
  Database, InventoryRow, StockRow, select, update, count,
}
use fulfillhub_go_commerce_p.Postgres.Stock.{
  ReservationItem, is_stock, is_candidate, most_available, candidate, take_stock,
}
use fulfillhub_go_commerce_p.Postgres.Ledger.{hand, reserved_for}

abbrev pub In : InventoryRow → List InventoryRow → Type 0
In x [] = ⊥
In x (y ∷ ys) = (x ≡ y) ⊎ In x ys

pub named-In :
    (rows : List InventoryRow) (r : InventoryRow)
    → In r rows
    → All (λ row. str_eq row.warehouse_id "" ≡ false) rows
    → str_eq r.warehouse_id "" ≡ false
named-In [] r h named = elim h [ ]
named-In (row ∷ rows) r (inl same) (h, hs) = ap (λ x. str_eq x.warehouse_id "") same ∙ h
named-In (row ∷ rows) r (inr later) (h, hs) = named-In rows r later hs

most_available-In :
    (best : Option InventoryRow) (rows : List InventoryRow) (r : InventoryRow)
    → most_available best rows ≡ some r
    → (best ≡ some r) ⊎ In r rows
unfolding most_available
most_available-In best [] r h = inl h
most_available-In none (row ∷ rows) r h = elim (most_available-In (some row) rows r h) [
  | inl first ↦ inr (inl (sym (some-injective row r first)))
  | inr later ↦ inr (inr later)
]
most_available-In (some best) (row ∷ rows) r h =
    elim (Bool-cases (ltb best.available_quantity row.available_quantity)) [
      | inl more ↦ elim (most_available-In (some row) rows r (rw more at h)) [
        | inl first ↦ inr (inl (sym (some-injective row r first)))
        | inr later ↦ inr (inr later)
      ]
      | inr less ↦ elim (most_available-In (some best) rows r (rw less at h)) [
        | inl first ↦ inl first
        | inr later ↦ inr (inr later)
      ]
    ]

select-In :
    (p : InventoryRow → Bool) (rows : List InventoryRow) (r : InventoryRow)
    → In r (select p rows)
    → In r rows × (p r ≡ true)
unfolding select
select-In p [] r h = elim h [ ]
select-In p (row ∷ rows) r h = elim (Bool-cases (p row)) [
  | inl hit ↦ elim (rw hit at h) [
    | inl same ↦ (inl same, ap p same ∙ hit)
    | inr later ↦ let (there, holds) = select-In p rows r later in (inr there, holds)
  ]
  | inr miss ↦ let (there, holds) = select-In p rows r (rw miss at h) in (inr there, holds)
]

others :
    (w k : String) (rows : List InventoryRow) (r : InventoryRow)
    → count (is_stock w k) rows ≡ 0
    → All (λ row. is_stock w k row ≡ true → row ≡ r) rows
unfolding count
others w k [] r zero = tt
others w k (row ∷ rows) r zero = elim (Bool-cases (is_stock w k row)) [
  | inl hit ↦ cc (rw hit at zero)
  | inr miss ↦ (λ hit. cc (hit, miss), others w k rows r (rw miss at zero))
]

In-counted :
    (w k : String) (rows : List InventoryRow) (r : InventoryRow)
    → In r rows
    → is_stock w k r ≡ true
    → 1 ≤ count (is_stock w k) rows
unfolding count
In-counted w k [] r h mine = elim h [ ]
In-counted w k (row ∷ rows) r (inl same) mine = ground (arith, mine, ap (is_stock w k) same)
In-counted w k (row ∷ rows) r (inr later) mine = ground (arith, In-counted w k rows r later mine)

-- With one row at most for a key, every row of that key is the one.
pub In-only :
    (w k : String) (rows : List InventoryRow) (r : InventoryRow)
    → In r rows
    → is_stock w k r ≡ true
    → count (is_stock w k) rows ≤ 1
    → All (λ row. is_stock w k row ≡ true → row ≡ r) rows
unfolding count
In-only w k [] r h mine one = tt
In-only w k (row ∷ rows) r (inl same) mine one =
    (λ hit. sym same, others w k rows r (ground (arith, one, ap (is_stock w k) same, mine)))
In-only w k (row ∷ rows) r (inr later) mine one = (
  λ hit. ground (arith, one, hit, In-counted w k rows r later mine),
  In-only w k rows r later mine (ground (arith, one)),
)

pub candidate-In :
    (merchant_id : String) (item : ReservationItem) (db : Database) (r : InventoryRow)
    → candidate merchant_id item db ≡ some r
    → In r db.inventory_items
      × (str_eq r.sku item.sku ≡ true)
      × (item.quantity ≤ r.available_quantity)
unfolding candidate is_candidate
candidate-In merchant_id item db r h =
    elim (most_available-In none
      (select (is_candidate merchant_id item db.warehouses) db.inventory_items) r h) [
        | inl never ↦ cc never
        | inr there ↦
            let (listed, fits) = select-In _ db.inventory_items r there in
            (listed, ground (arith, fits), ground (arith, fits))
      ]

module _ (w k : String) (quantity : ℕ) (at : Time) where
  -- The rows of the key have enough.
  abbrev Enough : InventoryRow → Type 0
  Enough row = is_stock w k row ≡ true → quantity ≤ row.available_quantity

  pub enough :
      (r : InventoryRow) (rows : List InventoryRow)
      → quantity ≤ r.available_quantity
      → All (λ row. is_stock w k row ≡ true → row ≡ r) rows
      → All Enough rows
  enough r [] fits h = tt
  enough r (row ∷ rows) fits (h, hs) = (
    λ hit. subst (λ x. quantity ≤ x.available_quantity) (sym (h hit)) fits,
    enough r rows fits hs,
  )

  take-hand :
      (row : InventoryRow)
      → quantity ≤ row.available_quantity
      → hand (take_stock quantity at row) ≡ hand row
  unfolding take_stock
  take-hand row fits =
      ap (λ n. record { warehouse_id = row.warehouse_id; sku = row.sku; quantity = n })
        (omega (arith, fits))

  pub taken-hand :
      (rows : List InventoryRow)
      → All Enough rows
      → map hand (update (is_stock w k) (take_stock quantity at) rows) ≡ map hand rows
  taken-hand [] h = refl
  taken-hand (row ∷ rows) (h, hs) = elim (Bool-cases (is_stock w k row)) [
    | inl hit ↦ rw hit (cc (take-hand row (h hit), taken-hand rows hs))
    | inr miss ↦ rw miss (ap (λ l. hand row ∷ l) (taken-hand rows hs))
  ]

  pub taken-named :
      (rows : List InventoryRow)
      → All (λ row. str_eq row.warehouse_id "" ≡ false) rows
      → All
          (λ row. str_eq row.warehouse_id "" ≡ false)
          (update (is_stock w k) (take_stock quantity at) rows)
  unfolding take_stock
  taken-named [] h = tt
  taken-named (row ∷ rows) (h, hs) = elim (Bool-cases (is_stock w k row)) [
    | inl hit ↦ rw hit (h, taken-named rows hs)
    | inr miss ↦ rw miss (h, taken-named rows hs)
  ]

  -- Where the reservations hold `quantity` more at the key, so do the rows.
  pub taken-reserved :
      (before after : List StockRow)
      → ((row : InventoryRow)
          → reserved_for after row
            ≡ reserved_for before row
              + (if str_eq w row.warehouse_id && str_eq k row.sku then quantity else 0))
      → (rows : List InventoryRow)
      → All (λ row. row.reserved_quantity ≡ reserved_for before row) rows
      → All
          (λ row. row.reserved_quantity ≡ reserved_for after row)
          (update (is_stock w k) (take_stock quantity at) rows)
  unfolding take_stock
  taken-reserved before after more [] h = tt
  taken-reserved before after more (row ∷ rows) (h, hs) = elim (Bool-cases (is_stock w k row)) [
    | inl hit ↦ rw hit (
      ground (
        arith,
        h,
        more row,
        hit,
        eq_iff row.warehouse_id w,
        eq_iff row.sku k,
        eq_iff w row.warehouse_id,
        eq_iff k row.sku,
      ),
      taken-reserved before after more rows hs,
    )
    | inr miss ↦ rw miss (
      ground (
        arith,
        h,
        more row,
        miss,
        eq_iff row.warehouse_id w,
        eq_iff row.sku k,
        eq_iff w row.warehouse_id,
        eq_iff k row.sku,
      ),
      taken-reserved before after more rows hs,
    )
  ]
