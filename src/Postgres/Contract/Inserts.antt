-- ===== src/Postgres/Contract/Inserts.antt =====
-- `InsertOrder` of internal/postgres/store.go, as an effect on the view.
use fulfillhub_go_commerce_p.Prelude.{
  String, ◌≡◌, refl, ap, ◌∙◌, false, none, some, List, [], ◌∷◌, ◌++◌, any, arith, str_eq, eq_iff,
  if◌then◌else◌,
}
use fulfillhub_go_commerce_p.Commerce.Model.{Order, OrderItem}
use fulfillhub_go_commerce_p.Commerce.Event.{OutboxEvent, AuditLog}
use fulfillhub_go_commerce_p.Commerce.Event.Message.{message}
use fulfillhub_go_commerce_p.Commerce.Contract.{Effect, nothing, created}
use fulfillhub_go_commerce_p.Postgres.Tables.{Database, OrderRow, select_row}
use fulfillhub_go_commerce_p.Postgres.{Engine}
use fulfillhub_go_commerce_p.Postgres.Rows.{is_order}
use fulfillhub_go_commerce_p.Postgres.Orders.{
  add_merchant, order_row, order_breach, insert_order_row, insert_items, insert_key, insert_new,
  item_row,
}
use fulfillhub_go_commerce_p.Postgres.Rules.{exec_checked-ok}
use fulfillhub_go_commerce_p.Postgres.Contract.{
  StockTest, settle, database_view, row_status, Step, sequence, return-Step,
}
use fulfillhub_go_commerce_p.Postgres.Contract.Statements.{
  exec-Step, exec_checked-Step, insert_outbox_event-Step, insert_audit_log-Step,
}
use fulfillhub_go_commerce_p.Postgres.Contract.Stock.{elsewhere}

-- A row appended to a table that has none under its key.
pub select_row-snoc :
    (rows : List OrderRow) (new : OrderRow) (j : String)
    → any (is_order new.order_id) rows ≡ false
    → row_status (select_row (is_order j) (rows ++ new ∷ [])) ≡ (
        if str_eq new.order_id j
        then some new.status
        else row_status (select_row (is_order j) rows))
unfolding select_row row_status
select_row-snoc [] new j h = ground arith
select_row-snoc (r ∷ rows) new j h = ground (
  arith,
  h,
  select_row-snoc rows new j,
  eq_iff r.order_id new.order_id,
  eq_iff r.order_id j,
  eq_iff new.order_id j,
)

order_breach-new :
    (row : OrderRow) (db : Database)
    → order_breach row db ≡ none
    → any (is_order row.order_id) db.orders ≡ false
unfolding order_breach
order_breach-new row db h = ground (arith, h)

abbrev pub opened : Order → Effect
opened order = record nothing { target = created order.order_id order.status }

module _ {Q : StockTest} (engine : Engine) where
  insert_order_row-Step :
      (merchant_id : String) (order : Order)
      → Step Q nothing (insert_order_row engine merchant_id order) (opened order)
  unfolding insert_order_row order_row database_view
  insert_order_row-Step merchant_id order = record {
    run = λ b db p a t h.
        let (free, same) = exec_checked-ok engine _ _ _ _ db t h in
        settle Q (opened order) b same (
          record {
            target = λ j.
                select_row-snoc db.orders (order_row merchant_id order) j
                  (order_breach-new (order_row merchant_id order) db free)
                ∙ ap (λ o. if str_eq order.order_id j then some order.status else o) (p.0.target j);
            outbox = p.0.outbox;
            audits = p.0.audits;
          },
          p.1,
        );
  }

  insert_items-Step :
      (e : Effect) (id : String) (items : List OrderItem)
      → Step Q e (insert_items engine id items) e
  unfolding insert_items
  insert_items-Step e id [] = return-Step e tt
  insert_items-Step e id (item ∷ items) =
      sequence e e e _ _
        (exec_checked-Step engine e _ _ _
          (λ db. record db { order_items = db.order_items ++ item_row id item ∷ [] })
          (elsewhere _ (λ d. refl) (λ d. refl) (λ d. refl)) (λ db q. q))
        (λ u. insert_items-Step e id items)

  insert_key-Step :
      (e : Effect) (merchant_id key id : String) → Step Q e (insert_key engine merchant_id key id) e
  unfolding insert_key
  insert_key-Step e merchant_id key id =
      exec_checked-Step engine e _ _ _ _
        (elsewhere
          (λ db. record db {
            idempotency_keys =
                db.idempotency_keys
                ++ record { merchant_id = merchant_id; idempotency_key = key; order_id = id } ∷ [];
          })
          (λ d. refl) (λ d. refl) (λ d. refl))
        (λ db q. q)

  pub insert_new-Step :
      (merchant_id key : String) (order : Order) (event : OutboxEvent) (audit : AuditLog)
      → Step Q nothing
          (insert_new engine merchant_id key order event audit)
          (record (opened order) { messages = message event ∷ []; audits = audit ∷ [] })
  unfolding insert_new add_merchant
  insert_new-Step merchant_id key order event audit =
      sequence nothing nothing _ _ _
        (exec-Step engine nothing _ (add_merchant merchant_id)
          (elsewhere _ (λ d. refl) (λ d. refl) (λ d. refl)) (λ db q. q))
        (λ u. sequence nothing (opened order) _ _ _ (insert_order_row-Step merchant_id order) (λ v.
          sequence _ (opened order) _ _ _ (insert_items-Step _ order.order_id order.items) (λ w.
            sequence _ (opened order) _ _ _ (insert_key-Step _ merchant_id key order.order_id) (λ x.
              sequence _ _ _ _ _ (insert_outbox_event-Step engine (opened order) event) (λ y.
                sequence _ _ _ _ _ (insert_audit_log-Step engine _ audit)
                  (λ z. return-Step _ _))))))
