-- ===== src/Postgres/Contract/Statements.antt =====
-- The steps that the methods of internal/postgres/store.go are made of, as effects on the view.
use mathlib.Core.List.{append_assoc, map-append}
use fulfillhub_go_commerce_p.Prelude.{
  ℕ, suc, String, ◌≡◌, refl, sym, ap, ◌∙◌, Option, none, some, List, [], ◌∷◌, ◌++◌, map,
  Option-cases, inl, inr, str_eq, if◌then◌else◌,
}
use fulfillhub_go_commerce_p.Commerce.Status.{OrderStatus, validate_order_transition}
use fulfillhub_go_commerce_p.Commerce.Event.{with_envelope_defaults, OutboxEvent, AuditLog}
use fulfillhub_go_commerce_p.Commerce.Event.Message.{message, message-with_envelope_defaults}
use fulfillhub_go_commerce_p.Commerce.Result.{Result, err, Error, Op, ok, err, ◌>>=◌, return}
use fulfillhub_go_commerce_p.Commerce.Contract.{Effect, moved, checked, nothing}
use fulfillhub_go_commerce_p.Commerce.Ensures.{bind-ok}
use fulfillhub_go_commerce_p.Postgres.Tables.{Database, OrderRow, select_row}
use fulfillhub_go_commerce_p.Postgres.{
  PgError, Engine, exec, exec_checked, query, found, in_transaction, some_affected,
}
use fulfillhub_go_commerce_p.Postgres.Rows.{
  is_order, update_order, lock_order_status, validate_transition, lock_for, outbox_row,
  append_outbox, insert_encoded, insert_outbox_event, insert_audit_log, get_order_row,
}
use fulfillhub_go_commerce_p.Postgres.Orders.{set_order, set_order_counted}
use fulfillhub_go_commerce_p.Postgres.Projection.{publish}
use fulfillhub_go_commerce_p.Postgres.Rules.{
  exec-ok, query-ok, exec_checked-ok, found-ok, in_transaction-ok, some_affected-ok,
}
use fulfillhub_go_commerce_p.Postgres.Contract.{
  StockTest, KeepsStock, settle, same_view-IsReached, database_view, row_status, row_message, Step,
  SameView, sequence, kept, silent, return-Step, update_keeps, update_moves,
}

abbrev pub waiting : String → OrderStatus → Effect
waiting id status = record nothing { target = checked id status }

joined :
    {A : Type 0} {xs : List A} (ys zs : List A) (x : A)
    → xs ≡ ys ++ zs
    → xs ++ x ∷ [] ≡ ys ++ (zs ++ x ∷ [])
joined ys zs x h = ap (λ l. l ++ x ∷ []) h ∙ append_assoc ys zs (x ∷ [])

module _ (engine : Engine) where
  lock_order_status-ok :
      (id : String) (db : Database) (s : OrderStatus) (t : Database)
      → lock_order_status engine id db ≡ (ok s, t)
      → (row_status (select_row (is_order id) db.orders) ≡ some s) × (t ≡ db)
  unfolding lock_order_status row_status
  lock_order_status-ok id db s t h =
      let reads : OrderRow → Op Database OrderStatus = λ row. return row.status in
      let (o, u, hq, hf) =
        bind-ok (query engine "lock order status" (λ d. select_row (is_order id) d.orders))
          (λ o. found o >>= reads) db s t h in
      let (r, v, hr, hs) = bind-ok (found o) reads u s t hf in
      let (read, same) = query-ok engine _ _ db o u hq in
      let (there, same') = found-ok o u r v hr in
      (
        ap row_status (sym read ∙ there) ∙ ap (λ p. elim p.0 [ ok x ↦ some x | err e ↦ none ]) hs,
        sym (ap (λ p. p.1) hs) ∙ (same' ∙ same),
      )

  validate_transition-ok :
      (from to : OrderStatus) (db t : Database)
      → validate_transition engine from to db ≡ (ok tt, t)
      → (validate_order_transition from to ≡ none) × (t ≡ db)
  unfolding validate_transition
  validate_transition-ok from to db t h = elim (Option-cases (validate_order_transition from to)) [
    | inl legal ↦ (legal, cc (rw (legal, validate_transition) at h))
    | inr (issue, illegal) ↦ cc (rw (illegal, validate_transition) at h)
  ]

module _ {Q : StockTest} (engine : Engine) where
  pub exec-Step :
      (e : Effect) (label : String) (f : Database → Database)
      → SameView f
      → KeepsStock Q f
      → Step Q e (exec engine label f) e
  exec-Step e label f same keeps = record {
    run = λ b db p a t h.
        settle Q e b (exec-ok engine label f db t h) (silent e f same b db p.0, keeps db p.1);
  }

  pub exec_checked-Step :
      (e : Effect) (label : String) (g : PgError → Error) (breaks : Database → Option String)
      (f : Database → Database)
      → SameView f
      → KeepsStock Q f
      → Step Q e (exec_checked engine label g breaks f) e
  exec_checked-Step e label g breaks f same keeps = record {
    run = λ b db p a t h.
        settle Q e b (exec_checked-ok engine label g breaks f db t h).1
          (silent e f same b db p.0, keeps db p.1);
  }

  pub query-Step :
      {A : Type 0} (e : Effect) (label : String) (f : Database → A)
      → Step Q e (query engine label f) e
  query-Step e label f = kept e _ (λ db a t h. (query-ok engine label f db a t h).1)

  pub found-Step : {A : Type 0} (e : Effect) (o : Option A) → Step Q e (found o) e
  found-Step e o = kept e _ (λ db a t h. (found-ok o db a t h).1)

  pub some_affected-Step : (e : Effect) (rows : ℕ) → Step Q e (some_affected rows) e
  some_affected-Step e rows = kept e _ (λ db a t h. some_affected-ok rows db t h)

  pub in_transaction-Step :
      {A : Type 0} (e e' : Effect) (label : String) (commit : A → String) (body : Op Database A)
      → Step Q e body e'
      → Step Q e (in_transaction engine label commit body) e'
  in_transaction-Step e e' label commit body step = record {
    run = λ b db p a t h. step.run b db p a t (in_transaction-ok engine label commit body db a t h);
  }

  insert_encoded-Step :
      (e : Effect) (event : OutboxEvent) (text : Result String)
      → Step Q e
          (insert_encoded engine (with_envelope_defaults event) text)
          (record e { messages = e.messages ++ message event ∷ [] })
  unfolding insert_encoded append_outbox database_view outbox_row row_message
  insert_encoded-Step e event (err x) = record { run = λ b db p a t h. cc h }
  insert_encoded-Step e event (ok text) = record {
    run = λ b db p a t h.
        settle Q (record e { messages = e.messages ++ message event ∷ [] }) b
          (exec_checked-ok engine _ _ _ _ db t h).1
          (
            record {
              target = same_view-IsReached e.target b (database_view db) _ (λ j. refl) p.0.target;
              outbox =
                  map-append row_message db.outbox_events _
                  ∙ (ap (λ m. map row_message db.outbox_events ++ m ∷ [])
                        (message-with_envelope_defaults event)
                      ∙ joined b.outbox e.messages (message event) p.0.outbox);
              audits = p.0.audits;
            },
            p.1,
          );
  }

  pub insert_outbox_event-Step :
      (e : Effect) (event : OutboxEvent)
      → Step Q e
          (insert_outbox_event engine event)
          (record e { messages = e.messages ++ message event ∷ [] })
  unfolding insert_outbox_event
  insert_outbox_event-Step e event =
      insert_encoded-Step e event (engine.marshal (with_envelope_defaults event))

  pub insert_audit_log-Step :
      (e : Effect) (audit : AuditLog)
      → Step Q e (insert_audit_log engine audit) (record e { audits = e.audits ++ audit ∷ [] })
  unfolding insert_audit_log database_view
  insert_audit_log-Step e audit = record {
    run = λ b db p a t h.
        settle Q (record e { audits = e.audits ++ audit ∷ [] }) b (exec-ok engine _ _ db t h)
          (
            record {
              target = same_view-IsReached e.target b (database_view db) _ (λ j. refl) p.0.target;
              outbox = p.0.outbox;
              audits = joined b.audits e.audits audit p.0.audits;
            },
            p.1,
          );
  }

  pub publish-Step :
      (e : Effect) (event : OutboxEvent) (audit : AuditLog)
      → Step Q e (publish engine event audit) (record e {
        messages = e.messages ++ message event ∷ [];
        audits = e.audits ++ audit ∷ [];
      })
  unfolding publish
  publish-Step e event audit =
      sequence _ _ _ (insert_outbox_event engine event) _ (insert_outbox_event-Step e event)
        (λ u. insert_audit_log-Step _ audit)

  -- A successful lock gives the status under the key, and the check that it may become the target.
  pub lock_for-Step :
      (id : String) (status : OrderStatus)
      → Step Q nothing (lock_for engine id status) (waiting id status)
  unfolding lock_for database_view
  lock_for-Step id status = record {
    run = λ b db p a t h.
        let (s, u, locked, valid) =
          bind-ok (lock_order_status engine id)
            (λ current. validate_transition engine current status) db a t h in
        let (here, same) = lock_order_status-ok engine id db s u locked in
        let (legal, same') = validate_transition-ok engine s status u t valid in
        settle Q (waiting id status) b (same' ∙ same) (
          record {
            target = ((s, sym (p.0.target id) ∙ here, legal), p.0.target);
            outbox = p.0.outbox;
            audits = p.0.audits;
          },
          p.1,
        );
  }

  pub set_order-Step :
      (e : Effect) (label id : String) (f : OrderRow → OrderRow)
      → ((r : OrderRow) → (f r).order_id ≡ r.order_id)
      → ((r : OrderRow) → (f r).status ≡ r.status)
      → Step Q e (set_order engine label id f) e
  unfolding set_order update_order database_view
  set_order-Step e label id f key same =
      exec-Step e label _
        (record {
          status = λ db j.
              update_keeps (is_order id) (λ row. f (record row { version = suc row.version }))
                db.orders (λ r. key _) (λ r. same _) j;
          outbox = λ db. refl;
          audits = λ db. refl;
        })
        (λ db q. q)

  pub set_moved-Step :
      (label id : String) (status : OrderStatus) (f : OrderRow → OrderRow)
      → ((r : OrderRow) → (f r).order_id ≡ r.order_id)
      → ((r : OrderRow) → (f r).status ≡ status)
      → Step Q
          (waiting id status)
          (set_order engine label id f)
          (record nothing { target = moved id status })
  unfolding set_order update_order database_view
  set_moved-Step label id status f key sets = record {
    run = λ b db p a t h.
        let ((s, here, legal), same) = p.0.target in
        settle Q (record nothing { target = moved id status }) b (exec-ok engine _ _ db t h)
          (
            record {
              target = (
                (s, here, legal),
                λ j.
                    update_moves id (λ row. f (record row { version = suc row.version })) db.orders
                      (λ r. key _) status (λ r. sets _) s (same id ∙ here) j
                    ∙ ap (λ o. if str_eq id j then some status else o) (same j),
              );
              outbox = p.0.outbox;
              audits = p.0.audits;
            },
            p.1,
          );
  }

  pub counted-Step :
      (e e' : Effect) (label id : String) (f : OrderRow → OrderRow)
      → Step Q e (set_order engine label id f) e'
      → Step Q e (set_order_counted engine label id f) e'
  unfolding set_order_counted
  counted-Step e e' label id f step = sequence e e e' _ _ (query-Step e label _) (λ rows.
      sequence e e' e' (set_order engine label id f) _ step (λ u. some_affected-Step e' rows))

  pub get_order_row-Step : (e : Effect) (id : String) → Step Q e (get_order_row engine id) e
  unfolding get_order_row
  get_order_row-Step e id = sequence e e e _ _ (query-Step e "get order" _) (λ row.
      sequence e e e (found row) _ (found-Step e row) (λ r.
        sequence e e e _ _ (query-Step e "get order items" _) (λ items.
          sequence e e e _ _ (query-Step e "get shipment" _) (λ shipment. return-Step e _))))
