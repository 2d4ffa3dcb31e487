-- ===== src/Postgres/Outbox/Claims.antt =====
-- `PendingOutboxEvents` of internal/postgres/store.go: the claims and their leases.
use fulfillhub_go_commerce_p.Prelude.{
  ℕ, ◌+◌, ◌-◌, ◌<◌, ◌≡◌, leb, ◌==◌, Bool, true, false, List, [], ◌∷◌, some, arith, Bool-cases, inl,
  inr, All,
}
use fulfillhub_go_commerce_p.Commerce.Model.{Time}
use fulfillhub_go_commerce_p.Commerce.Store.Outbox.{claim_lease}
use fulfillhub_go_commerce_p.Postgres.Tables.{Database, OutboxRow, select}
use fulfillhub_go_commerce_p.Postgres.Outbox.{
  insert_by, order_by, is_claimable, is_unpublished, first, picked, has_row, claim, claim_rows,
}

module _ {A : Type 0} (P : A → Type 0) where
  select-All :
      (p : A → Bool) (rows : List A) → All (λ x. p x ≡ true → P x) rows → All P (select p rows)
  unfolding select
  select-All p [] h = tt
  select-All p (x ∷ rows) (h, hs) = elim (Bool-cases (p x)) [
    | inl hit ↦ rw hit (h hit, select-All p rows hs)
    | inr miss ↦ rw miss (select-All p rows hs)
  ]

  insert_by-All :
      (key : A → Time) (x : A) (rows : List A) → P x → All P rows → All P (insert_by key x rows)
  unfolding insert_by
  insert_by-All key x [] h hs = (h, tt)
  insert_by-All key x (y ∷ rows) h (k, hs) = elim (Bool-cases (leb (key x) (key y))) [
    | inl before ↦ rw before (h, (k, hs))
    | inr after ↦ rw after (k, insert_by-All key x rows h hs)
  ]

  order_by-All : (key : A → Time) (rows : List A) → All P rows → All P (order_by key rows)
  unfolding order_by
  order_by-All key [] h = tt
  order_by-All key (x ∷ rows) (h, hs) =
      insert_by-All key x (order_by key rows) h (order_by-All key rows hs)

  first-All : (n : ℕ) (rows : List A) → All P rows → All P (first n rows)
  unfolding first
  first-All n [] h = tt
  first-All n (x ∷ rows) (h, hs) = elim (Bool-cases (n == 0)) [
    | inl done ↦ rw done tt
    | inr more ↦ rw more (h, first-All (n - 1) rows hs)
  ]

picked-All :
    (P : OutboxRow → Type 0) (now : Time) (limit : ℕ) (rows : List OutboxRow)
    → All (λ row. is_claimable now row ≡ true → P row) rows
    → All P (picked now limit rows)
unfolding picked
picked-All P now limit rows h =
    first-All P limit _ (order_by-All P _ _ (select-All P (is_claimable now) rows h))

module _ (now later : Time) (early : later < now + claim_lease) where
  claimed : OutboxRow → OutboxRow
  claimed row = record row { claimed_until = some (now + claim_lease) }

  -- A row that was chosen is not claimable before its lease ends.
  claim-All :
      (chosen rows : List OutboxRow)
      → All
          (λ row. is_claimable later row ≡ true → has_row row chosen ≡ false)
          (claim now chosen rows)
  unfolding claim is_claimable is_unpublished
  claim-All chosen [] = tt
  claim-All chosen (row ∷ rows) = elim (Bool-cases (has_row row chosen)) [
    | inl mine ↦ rw mine (λ h. ground (arith, h, early), claim-All chosen rows)
    | inr other ↦ rw other (λ h. other, claim-All chosen rows)
  ]

  -- Of two claims in a row, the second before the lease of the first has ended, the second takes no row
  -- whose message the first took.
  pub rows_claimed_once :
      (limit limit' : ℕ) (db : Database)
      → All
          (λ row. has_row row (picked now limit db.outbox_events) ≡ false)
          (picked later limit' (claim_rows now limit db).outbox_events)
  unfolding claim_rows
  rows_claimed_once limit limit' db =
      picked-All (λ row. has_row row (picked now limit db.outbox_events) ≡ false) later limit' _
        (claim-All (picked now limit db.outbox_events) db.outbox_events)
