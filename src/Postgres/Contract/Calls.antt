-- ===== src/Postgres/Contract/Calls.antt =====
-- The methods of internal/postgres/store.go keep the contract that `MemoryStore` keeps.
use mathlib.Core.List.{append-nil}
use fulfillhub_go_commerce_p.Prelude.{
  ℕ, String, ◌≡◌, refl, sym, ap, subst, ◌∙◌, Bool, true, false, Option, none, some, List, [], ◌∷◌,
  map, inl, inr, if◌then◌else◌,
}
use fulfillhub_go_commerce_p.Commerce.Model.{Time, Order}
use fulfillhub_go_commerce_p.Commerce.Event.{OutboxEvent, AuditLog}
use fulfillhub_go_commerce_p.Commerce.Result.{Result, Op, ok, err, return}
use fulfillhub_go_commerce_p.Commerce.Ensures.{bind-ok}
use fulfillhub_go_commerce_p.Commerce.Store.History.{
  Call, inserts, updates, inventory_reserves, inventory_rejects, payment_authorizes, payment_fails,
  shipment_creates, shipment_fails, order_cancels, notification_queues, compensates, claims,
  publishes, forget,
}
use fulfillhub_go_commerce_p.Commerce.Contract.{View, Effect, Fulfils, nothing, effect, IsPromised}
use fulfillhub_go_commerce_p.Postgres.Tables.{Database, OutboxRow, IdempotencyRow, update}
use fulfillhub_go_commerce_p.Postgres.{Engine}
use fulfillhub_go_commerce_p.Postgres.Orders.{
  update_order_status, insert_order, insert_or_replay, order_by_idempotency,
}
use fulfillhub_go_commerce_p.Postgres.Rows.{get_order_row}
use fulfillhub_go_commerce_p.Postgres.Outbox.{
  pending_outbox_events, mark_outbox_published, claim_rows, claim, mark_row,
}
use fulfillhub_go_commerce_p.Postgres.Rules.{in_transaction-ok, query-ok}
use fulfillhub_go_commerce_p.Postgres.Calls.{apply, discard}
use fulfillhub_go_commerce_p.Postgres.Contract.{
  kept, StockTest, database_view, row_message, Step, sequence, return-Step,
}
use fulfillhub_go_commerce_p.Postgres.Contract.Statements.{
  exec-Step, query-Step, some_affected-Step, get_order_row-Step,
}
use fulfillhub_go_commerce_p.Postgres.Contract.Methods.{
  update_order_status-Step, record_inventory_reserved-Step, record_inventory_rejected-Step,
  record_payment_authorized-Step, record_payment_failed-Step, record_shipment_created-Step,
  record_shipment_failed-Step, record_order_cancelled-Step, record_notification_queued-Step,
  record_compensation-Step,
}
use fulfillhub_go_commerce_p.Postgres.Contract.Inserts.{insert_new-Step}
use fulfillhub_go_commerce_p.Postgres.Contract.Stock.{Any, IsStable}

either_message :
    (f : OutboxRow → OutboxRow) (b : Bool) (row : OutboxRow)
    → row_message (f row) ≡ row_message row
    → row_message (if b then f row else row) ≡ row_message row
either_message f true row h = h
either_message f false row h = refl

map-update :
    (p : OutboxRow → Bool) (f : OutboxRow → OutboxRow) (rows : List OutboxRow)
    → ((row : OutboxRow) → row_message (f row) ≡ row_message row)
    → map row_message (update p f rows) ≡ map row_message rows
map-update p f [] same = refl
map-update p f (row ∷ rows) same =
    cc (either_message f (p row) row (same row), map-update p f rows same)

start : (v : View) → Fulfils nothing v v
start v = record { target = λ j. refl; outbox = sym (append-nil _); audits = sym (append-nil _) }

forget-ok : {A : Type 0} (r : Result A) → forget r ≡ ok tt → (a : A) × (r ≡ ok a)
forget-ok (ok a) h = (a, refl)
forget-ok (err e) h = cc h

discard-ok :
    {A : Type 0} (m : Op Database A) (db t : Database)
    → discard m db ≡ (ok tt, t)
    → (a : A) × (m db ≡ (ok a, t))
discard-ok m db t h =
    let (a, e) = forget-ok (m db).0 (ap (λ p. p.0) h) in
    (a, ap (λ r. (r, (m db).1)) e ∙ ap (λ s. (ok a, s)) (ap (λ p. p.1) h))

module _ (engine : Engine) where
  order_by_idempotency-same :
      (merchant_id key : String) (db : Database) (row : Option IdempotencyRow) (t : Database)
      → order_by_idempotency engine merchant_id key db ≡ (ok row, t)
      → t ≡ db
  unfolding order_by_idempotency
  order_by_idempotency-same merchant_id key db row t h = (query-ok engine _ _ db row t h).1

module _ {Q : StockTest} (engine : Engine) where
  pending_outbox_events-Step :
      (now : Time) (limit : ℕ) → Step Q nothing (pending_outbox_events engine now limit) nothing
  unfolding pending_outbox_events claim_rows claim database_view row_message
  pending_outbox_events-Step now limit =
      sequence nothing nothing nothing _ _ (query-Step engine nothing _ _) (λ chosen.
        sequence nothing nothing nothing _ _
          (exec-Step engine nothing _ _
            (record {
              status = λ db j. refl;
              outbox = λ db. map-update _ _ db.outbox_events (λ row. refl);
              audits = λ db. refl;
            })
            (λ db q. q))
          (λ u. kept nothing _ (λ db a t h. sym (ap (λ r. r.1) h))))

  mark_outbox_published-Step :
      (message_id : String) (at : Time)
      → Step Q nothing (mark_outbox_published engine message_id at) nothing
  unfolding mark_outbox_published mark_row database_view row_message
  mark_outbox_published-Step message_id at =
      sequence nothing nothing nothing _ _ (query-Step engine nothing _ _) (λ rows.
        sequence nothing nothing nothing _ _
          (exec-Step engine nothing _ _
            (record {
              status = λ db j. refl;
              outbox = λ db. map-update _ _ db.outbox_events (λ row. refl);
              audits = λ db. refl;
            })
            (λ db q. q))
          (λ u. some_affected-Step engine nothing rows))

module _ {Q : StockTest} (engine : Engine) (stable : IsStable engine Q) where
  -- A successful call: its promise, and the stock.
  abbrev IsKept : Call → Database → Database → Type 0
  IsKept c db t =
      IsPromised c (database_view db) (database_view t) × Q t.inventory_items t.stock_reservations

  delivers :
      {A : Type 0} (e : Effect) (m : Op Database A)
      → Step Q nothing m e
      → (db : Database) (a : A) (t : Database) → Q db.inventory_items db.stock_reservations
      → m db ≡ (ok a, t)
      → Fulfils e (database_view db) (database_view t) × Q t.inventory_items t.stock_reservations
  delivers e m step db a t q h = step.run (database_view db) db (start _, q) a t h

  insert_or_replay-IsKept :
      (merchant_id key : String) (order : Order) (event : OutboxEvent) (audit : AuditLog)
      (row : Option IdempotencyRow) (db : Database) (a : Order × Bool) (t : Database)
      → Q db.inventory_items db.stock_reservations
      → insert_or_replay engine merchant_id key order event audit row db ≡ (ok a, t)
      → IsKept (inserts merchant_id key order event audit) db t
  unfolding insert_or_replay effect
  insert_or_replay-IsKept merchant_id key order event audit (some row) db a t q h =
      let (shown, kept) =
        delivers nothing _
          (sequence nothing nothing nothing (get_order_row engine row.order_id)
            (λ existing. return (existing, true)) (get_order_row-Step engine nothing row.order_id)
            (λ existing. return-Step nothing _))
          db a t q h in
      (inl shown, kept)
  insert_or_replay-IsKept merchant_id key order event audit none db a t q h =
      let (shown, kept) =
        delivers _ _ (insert_new-Step engine merchant_id key order event audit) db a t q h in
      (inr shown, kept)

  insert_order-IsKept :
      (merchant_id key : String) (order : Order) (event : OutboxEvent) (audit : AuditLog)
      (db : Database) (a : Order × Bool) (t : Database)
      → Q db.inventory_items db.stock_reservations
      → insert_order engine merchant_id key order event audit db ≡ (ok a, t)
      → IsKept (inserts merchant_id key order event audit) db t
  unfolding insert_order
  insert_order-IsKept merchant_id key order event audit db a t q h =
      let (row, u, asked, rest) =
        bind-ok (order_by_idempotency engine merchant_id key)
          (insert_or_replay engine merchant_id key order event audit) db a t
          (in_transaction-ok engine _ _ _ db a t h) in
      let same = order_by_idempotency-same engine merchant_id key db row u asked in
      subst (λ d. IsKept (inserts merchant_id key order event audit) d t) same
        (insert_or_replay-IsKept merchant_id key order event audit row u a t
          (subst (λ d. Q d.inventory_items d.stock_reservations) (sym same) q) rest)

  pub successful_call-IsKept :
      (c : Call) (db t : Database)
      → Q db.inventory_items db.stock_reservations
      → apply engine c db ≡ (ok tt, t)
      → IsKept c db t
  unfolding apply effect
  successful_call-IsKept (inserts merchant_id key order event audit) db t q h =
      let (a, k) = discard-ok (insert_order engine merchant_id key order event audit) db t h in
      insert_order-IsKept merchant_id key order event audit db a t q k
  successful_call-IsKept (updates id status now event audit) db t q h =
      let (a, k) = discard-ok (update_order_status engine id status now event audit) db t h in
      delivers _ _ (update_order_status-Step engine stable id status now event audit) db a t q k
  successful_call-IsKept (inventory_reserves source next audit) db t q h =
      delivers _ _ (record_inventory_reserved-Step engine stable source next audit) db tt t q h
  successful_call-IsKept (inventory_rejects source next audit) db t q h =
      delivers _ _ (record_inventory_rejected-Step engine stable source next audit) db tt t q h
  successful_call-IsKept (payment_authorizes source next payment audit) db t q h =
      delivers _ _ (record_payment_authorized-Step engine stable source next payment audit) db tt t
        q h
  successful_call-IsKept (payment_fails source next audit) db t q h =
      delivers _ _ (record_payment_failed-Step engine stable source next audit) db tt t q h
  successful_call-IsKept (shipment_creates source next shipment audit) db t q h =
      delivers _ _ (record_shipment_created-Step engine stable source next shipment audit) db tt t q
        h
  successful_call-IsKept (shipment_fails source next audit) db t q h =
      delivers _ _ (record_shipment_failed-Step engine stable source next audit) db tt t q h
  successful_call-IsKept (order_cancels source next audit) db t q h =
      delivers _ _ (record_order_cancelled-Step engine stable source next audit) db tt t q h
  successful_call-IsKept (notification_queues source audit) db t q h =
      delivers _ _ (record_notification_queued-Step engine stable source audit) db tt t q h
  successful_call-IsKept (compensates source status audit) db t q h =
      delivers _ _ (record_compensation-Step engine stable source status audit) db tt t q h
  successful_call-IsKept (claims now limit) db t q h =
      let (a, k) = discard-ok (pending_outbox_events engine now limit) db t h in
      delivers _ _ (pending_outbox_events-Step engine now limit) db a t q k
  successful_call-IsKept (publishes message_id at) db t q h =
      delivers _ _ (mark_outbox_published-Step engine message_id at) db tt t q h

-- Where a method of the PostgreSQL store succeeds, whatever the engine, the database shows what the
-- contract promises of the call, which is what the memory store shows.
pub postgres_store-IsPromised :
    (engine : Engine) (c : Call) (db t : Database)
    → apply engine c db ≡ (ok tt, t)
    → IsPromised c (database_view db) (database_view t)
postgres_store-IsPromised engine c db t h =
    (successful_call-IsKept {Q = Any} engine
      (record { reserves = λ m o at i d q a u k. tt; releases = λ o at d q a u k. tt }) c db t tt
      h).0
