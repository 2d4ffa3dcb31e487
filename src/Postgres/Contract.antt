-- ===== src/Postgres/Contract.antt =====
-- What the statements of internal/postgres/store.go do to the part of the database that the store's
-- contract speaks of; Calls has the methods.
pub mod Statements
pub mod Stock
pub mod Methods
pub mod Inserts
pub mod Calls
pub mod Agreement
use mathlib.Core.List.{append-nil, append_assoc}
use fulfillhub_go_commerce_p.Prelude.{
  ℕ, suc, String, ◌≡◌, refl, sym, ap, ◌∙◌, subst, Bool, true, false, Option, none, some, List, [],
  ◌∷◌, ◌++◌, map, arith, Option-cases, Bool-cases, inl, inr, str_eq, eq_iff, if◌then◌else◌, any,
}
use fulfillhub_go_commerce_p.Commerce.Status.{OrderStatus, validate_order_transition}
use fulfillhub_go_commerce_p.Commerce.Model.{Time}
use fulfillhub_go_commerce_p.Commerce.Event.{OutboxEvent, AuditLog, with_envelope_defaults}
use fulfillhub_go_commerce_p.Commerce.Event.Message.{
  Message, message, message-with_envelope_defaults,
}
use fulfillhub_go_commerce_p.Commerce.Result.{Result, Op, ok, err, ◌>>=◌, ◌>>◌, return}
use fulfillhub_go_commerce_p.Commerce.Ensures.{Ensures, bind-ok}
use fulfillhub_go_commerce_p.Commerce.Contract.{
  View, Effect, Fulfils, Target, untouched, moved, checked, nothing, IsLegal, IsReached, set_status,
}
use fulfillhub_go_commerce_p.Postgres.Tables.{
  Database, OrderRow, OutboxRow, InventoryRow, StockRow, select_row, update, set_where,
}
use fulfillhub_go_commerce_p.Postgres.{
  PgError, Engine, wrap, exec, exec_checked, query, found, in_transaction, some_affected,
}
use fulfillhub_go_commerce_p.Postgres.Rows.{
  is_order, update_order, lock_order_status, validate_transition, outbox_row, append_outbox,
  insert_outbox_event, insert_audit_log,
}
use fulfillhub_go_commerce_p.Postgres.Ledger.Totals.{select_row-holds}
use fulfillhub_go_commerce_p.Postgres.Rules.{
  exec-ok, query-ok, exec_checked-ok, found-ok, in_transaction-ok, some_affected-ok,
}

unfoldable pub row_status : Option OrderRow → Option OrderStatus
row_status none = none
row_status (some row) = some row.status

unfoldable pub row_message : OutboxRow → Message
row_message row = record {
  message_id = row.message_id;
  event_type = row.event_type;
  order_id = row.order_id;
  merchant_id = row.merchant_id;
  correlation_id = row.correlation_id;
}

unfoldable pub database_view : Database → View
unfolding row_status row_message
database_view db = record {
  status = λ id. row_status (select_row (is_order id) db.orders);
  outbox = map row_message db.outbox_events;
  audits = db.audit_logs;
}

-- What is followed of the stock beside the view.
abbrev pub StockTest : Type 1
StockTest = List InventoryRow → List StockRow → Type 0

abbrev pub KeepsStock : StockTest → (Database → Database) → Type 0
KeepsStock Q f =
    (db : Database)
    → Q db.inventory_items db.stock_reservations
    → Q (f db).inventory_items (f db).stock_reservations

abbrev pub Holds : StockTest → Effect → View → Database → Type 0
Holds Q e b db = Fulfils e b (database_view db) × Q db.inventory_items db.stock_reservations

-- From a database that has the one effect on the view `b`, the operation goes to one that has the other.
pub record Step {A : Type 0} (Q : StockTest) (e : Effect) (m : Op Database A) (e' : Effect)
    : Type 0 where
  pub run : (b : View) → Ensures (Holds Q e b) m (λ a. Holds Q e' b)

pub settle :
    (Q : StockTest) (e : Effect) (b : View) {t u : Database} → t ≡ u → Holds Q e b u → Holds Q e b t
settle Q e b same h = subst (Holds Q e b) (sym same) h

module _ {Q : StockTest} {A B : Type 0} where
  pub sequence :
      (e e' e'' : Effect) (m : Op Database A) (f : A → Op Database B)
      → Step Q e m e'
      → ((a : A) → Step Q e' (f a) e'')
      → Step Q e (m >>= f) e''
  sequence e e' e'' m f first rest = record {
    run = λ b db p x t h.
        let (a, u, hm, hf) = bind-ok m f db x t h in
        (rest a).run b u (first.run b db p a u hm) x t hf;
  }

module _ {Q : StockTest} {A : Type 0} where
  pub return-Step : (e : Effect) (a : A) → Step Q e (return a) e
  return-Step e a = record { run = λ b db p x t h. settle Q e b (sym (ap (λ r. r.1) h)) p }

  -- An operation that ends where it began.
  pub kept :
      (e : Effect) (m : Op Database A)
      → ((db : Database) (a : A) (t : Database) → m db ≡ (ok a, t) → t ≡ db)
      → Step Q e m e
  kept e m same = record { run = λ b db p a t h. settle Q e b (same db a t h) p }

  -- An operation of which the view and the stock are known apart.
  pub join :
      (e e' : Effect) (m : Op Database A)
      → Step (λ i s. Unit {0}) e m e'
      → Ensures
          (λ db. Q db.inventory_items db.stock_reservations)
          m
          (λ a db. Q db.inventory_items db.stock_reservations)
      → Step Q e m e'
  join e e' m step stock = record {
    run = λ b db p a t h. ((step.run b db (p.0, tt) a t h).0, stock db p.1 a t h);
  }

-- The view of a statement that leaves alone what the contract speaks of.
pub record SameView (f : Database → Database) : Type 0 where
  pub status :
      (db : Database) (j : String) → (database_view (f db)).status j ≡ (database_view db).status j
  pub outbox : (db : Database) → (database_view (f db)).outbox ≡ (database_view db).outbox
  pub audits : (db : Database) → (f db).audit_logs ≡ db.audit_logs

pub same_view-IsReached :
    (target : Target) (b v w : View)
    → ((j : String) → w.status j ≡ v.status j)
    → IsReached target b v
    → IsReached target b w
same_view-IsReached untouched b v w same r = λ j. same j ∙ r j
same_view-IsReached (Target.created id s) b v w same r = λ j. same j ∙ r j
same_view-IsReached (checked id s) b v w same (legal, r) = (legal, λ j. same j ∙ r j)
same_view-IsReached (moved id s) b v w same (legal, r) = (legal, λ j. same j ∙ r j)

pub silent :
    (e : Effect) (f : Database → Database)
    → SameView f
    → (b : View) (db : Database) → Fulfils e b (database_view db)
    → Fulfils e b (database_view (f db))
unfolding database_view
silent e f same b db p = record {
  target =
      same_view-IsReached e.target b (database_view db) (database_view (f db)) (same.status db)
        p.target;
  outbox = same.outbox db ∙ p.outbox;
  audits = same.audits db ∙ p.audits;
}

-- Looking up a row after an update that keeps the keys.
pub select_row-update :
    (q p : OrderRow → Bool) (f : OrderRow → OrderRow) (rows : List OrderRow)
    → ((r : OrderRow) → q (f r) ≡ q r)
    → select_row q (update p f rows)
      ≡ elim (select_row q rows) [ none ↦ none | some r ↦ some (set_where p f r) ]
unfolding select_row
select_row-update q p f [] keeps = refl
select_row-update q p f (r ∷ rows) keeps =
    ground (arith, select_row-update q p f rows keeps, keeps r)

-- What an update of the orders does to the statuses.
module _ (p : OrderRow → Bool) (f : OrderRow → OrderRow) (rows : List OrderRow)
    (key : (r : OrderRow) → (f r).order_id ≡ r.order_id) where
  status_after :
      (j : String) (o : Option OrderRow)
      → select_row (is_order j) rows ≡ o
      → row_status (select_row (is_order j) (update p f rows))
        ≡ row_status (elim o [ none ↦ none | some r ↦ some (set_where p f r) ])
  status_after j o h = ap row_status (
      select_row-update (is_order j) p f rows (λ r. ap (λ k. str_eq k j) (key r))
      ∙ ap (λ x. elim x [ none ↦ none | some r ↦ some (set_where p f r) ]) h)

  either_status :
      ((r : OrderRow) → (f r).status ≡ r.status)
      → (b : Bool) (r : OrderRow) → (if b then f r else r).status ≡ r.status
  either_status same true r = same r
  either_status same false r = refl

  pub update_keeps :
      ((r : OrderRow) → (f r).status ≡ r.status)
      → (j : String)
      → row_status (select_row (is_order j) (update p f rows))
        ≡ row_status (select_row (is_order j) rows)
  unfolding row_status
  update_keeps same j = elim (Option-cases (select_row (is_order j) rows)) [
    | inl absent ↦ status_after j none absent ∙ sym (ap row_status absent)
    | inr (r, there) ↦
        status_after j (some r) there ∙ (rw there (ap some (either_status same (p r) r)))
  ]

module _ (id : String) (f : OrderRow → OrderRow) (rows : List OrderRow)
    (key : (r : OrderRow) → (f r).order_id ≡ r.order_id) (status : OrderStatus)
    (sets : (r : OrderRow) → (f r).status ≡ status) where
  set_status_where :
      (r : OrderRow) (j : String)
      → str_eq r.order_id j ≡ true
      → row_status (some (set_where (is_order id) f r))
        ≡ (if str_eq id j then some status else row_status (some r))
  unfolding row_status
  set_status_where r j found =
      ground (arith, eq_iff r.order_id j, eq_iff r.order_id id, eq_iff id j, sets r)

  pub update_moves :
      (s : OrderStatus)
      → row_status (select_row (is_order id) rows) ≡ some s
      → (j : String)
      → row_status (select_row (is_order j) (update (is_order id) f rows))
        ≡ (if str_eq id j then some status else row_status (select_row (is_order j) rows))
  unfolding row_status
  update_moves s here j = elim (Option-cases (select_row (is_order j) rows)) [
    | inl absent ↦ elim (Bool-cases (str_eq id j)) [
      | inl same ↦ cc (
        ap (λ k. row_status (select_row (is_order k) rows)) ((eq_iff id j).0 same),
        ap row_status absent,
        here,
      )
      | inr other ↦
          rw other
            (status_after (is_order id) f rows key j none absent ∙ sym (ap row_status absent))
    ]
    | inr (r, there) ↦
        status_after (is_order id) f rows key j (some r) there
        ∙ rw there (set_status_where r j (select_row-holds (is_order j) rows r there))
  ]
