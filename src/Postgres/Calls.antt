-- ===== src/Postgres/Calls.antt =====
-- The methods of internal/postgres/store.go that write, as calls, and what a call which fails leaves.
use fulfillhub_go_commerce_p.Prelude.{
  ℕ, String, ◌≡◌, refl, sym, ap, ◌∙◌, Bool, Bool-cases, inl, inr, ◌==◌, List, ◌∷◌, [], arith, ◌⊎◌,
  any, not,
}
use fulfillhub_go_commerce_p.Commerce.Event.{OutboxEvent, AuditLog}
use fulfillhub_go_commerce_p.Commerce.Model.{Time}
use fulfillhub_go_commerce_p.Commerce.Result.{Error, Result, Op, ok, err, return, ◌>>◌}
use fulfillhub_go_commerce_p.Commerce.Ensures.{bind-err}
use fulfillhub_go_commerce_p.Commerce.Store.History.{
  Call, inserts, updates, inventory_reserves, inventory_rejects, payment_authorizes, payment_fails,
  shipment_creates, shipment_fails, order_cancels, notification_queues, compensates, claims,
  publishes, forget,
}
use fulfillhub_go_commerce_p.Postgres.Tables.{Database, OutboxRow, count, update}
use fulfillhub_go_commerce_p.Postgres.{Engine, query, exec, some_affected}
use fulfillhub_go_commerce_p.Postgres.Orders.{insert_order, update_order_status}
use fulfillhub_go_commerce_p.Postgres.Projection.{
  record_inventory_reserved, record_inventory_rejected, record_payment_authorized,
  record_payment_failed, record_shipment_created, record_shipment_failed, record_order_cancelled,
  record_notification_queued, record_compensation, record_audit_log,
}
use fulfillhub_go_commerce_p.Postgres.Outbox.{
  pending_outbox_events, mark_outbox_published, mark_row, is_markable, picked, claim_limit,
  claim_rows, read_claimed,
}
use fulfillhub_go_commerce_p.Postgres.Inbox.{
  is_message, add_inbox_row, record_inbox_message, release_inbox_message,
}
use fulfillhub_go_commerce_p.Postgres.Rules.{
  in_transaction-err, exec-ok, exec-err, query-ok, query-err,
}

abbrev pub discard : {A : Type 0} → Op Database A → Op Database (Unit {0})
discard m db = let (r, t) = m db in (forget r, t)

module _ (engine : Engine) where
  unfoldable pub apply : Call → Op Database (Unit {0})
  apply (inserts merchant_id key order event audit) =
      discard (insert_order engine merchant_id key order event audit)
  apply (updates id status now event audit) =
      discard (update_order_status engine id status now event audit)
  apply (inventory_reserves source next audit) = record_inventory_reserved engine source next audit
  apply (inventory_rejects source next audit) = record_inventory_rejected engine source next audit
  apply (payment_authorizes source next payment audit) =
      record_payment_authorized engine source next payment audit
  apply (payment_fails source next audit) = record_payment_failed engine source next audit
  apply (shipment_creates source next shipment audit) =
      record_shipment_created engine source next shipment audit
  apply (shipment_fails source next audit) = record_shipment_failed engine source next audit
  apply (order_cancels source next audit) = record_order_cancelled engine source next audit
  apply (notification_queues source audit) = record_notification_queued engine source audit
  apply (compensates source status audit) = record_compensation engine source status audit
  apply (claims now limit) = discard (pending_outbox_events engine now limit)
  apply (publishes message_id at) = mark_outbox_published engine message_id at

-- Every method of the store that writes.
pub data StoreCall : Type 0 where
  stores : Call → StoreCall
  audits : AuditLog → StoreCall
  records releases : String → OutboxEvent → StoreCall

unfoldable pub store_call : Engine → StoreCall → Op Database (Unit {0})
unfolding apply
store_call engine (stores c) = apply engine c
store_call engine (audits log) = record_audit_log engine log
store_call engine (records consumer event) = discard (record_inbox_message engine consumer event)
store_call engine (releases consumer event) = release_inbox_message engine consumer event

abbrev IsClaim : Call → Type 0
IsClaim (claims now limit) = Unit {0}
IsClaim _ = ⊥

-- The batch of a claim is claimed, and nothing else is changed.
abbrev pub IsClaimed : StoreCall → Database → Database → Type 0
IsClaimed (stores (claims now limit)) db t = t ≡ claim_rows now (claim_limit limit) db
IsClaimed _ db t = ⊥

-- A failed call, with its database.
abbrev Undone : {A : Type 0} → Op Database A → Type 0
Undone m = (db : Database) (e : Error) (t : Database) → m db ≡ (err e, t) → t ≡ db

forget-err : {A : Type 0} (r : Result A) (e : Error) → forget r ≡ err e → r ≡ err e
forget-err (ok a) e h = cc h
forget-err (err x) e h = cc h

discard-Undone : {A : Type 0} (m : Op Database A) → Undone m → Undone (discard m)
discard-Undone m h db e t k =
    sym (ap (λ p. p.1) k)
    ∙ h db e (m db).1 (ap (λ r. (r, (m db).1)) (forget-err (m db).0 e (ap (λ p. p.0) k)))

update-none :
    {A : Type 0} (p : A → Bool) (f : A → A) (rows : List A)
    → count p rows ≡ 0
    → update p f rows ≡ rows
unfolding count
update-none p f [] h = refl
update-none p f (x ∷ rows) h = elim (Bool-cases (p x)) [
  | inl hit ↦ ground (arith, hit, h)
  | inr miss ↦ rw miss (ap (λ r. x ∷ r) (update-none p f rows (rw miss at h)))
]

module _ (engine : Engine) where
  pending_outbox_events-err :
      (now : Time) (limit : ℕ) (db : Database) (e : Error) (t : Database)
      → pending_outbox_events engine now limit db ≡ (err e, t)
      → (t ≡ db) ⊎ (t ≡ claim_rows now (claim_limit limit) db)
  unfolding pending_outbox_events
  pending_outbox_events-err now limit db e t h =
      let n = claim_limit limit in
      let label : String = "claim pending outbox events" in
      let claiming = exec engine label (claim_rows now n) in
      let reading : List OutboxRow → Op Database (List OutboxEvent) =
        λ chosen d. (read_claimed engine chosen d, d) in
      elim (bind-err (query engine label (λ d. picked now n d.outbox_events))
        (λ chosen. claiming >> reading chosen) db e t h) [
          | inl k ↦ inl (query-err engine label _ db e t k)
          | inr (chosen, s, q, k) ↦
              let same = (query-ok engine label _ db chosen s q).1 in
              elim (bind-err claiming (λ u. reading chosen) s e t k) [
                | inl j ↦ inl (exec-err engine label _ s e t j ∙ same)
                | inr (u, s', x, j) ↦ inr (
                    sym (ap (λ r. r.1) j)
                    ∙ (exec-ok engine label _ s s' x ∙ ap (claim_rows now n) same))
              ]
        ]

  some_affected-err :
      (rows : ℕ) (db : Database) (e : Error) (t : Database)
      → some_affected rows db ≡ (err e, t)
      → (rows ≡ 0) × (t ≡ db)
  unfolding some_affected
  some_affected-err rows db e t h = elim (Bool-cases (rows == 0)) [
    | inl z ↦ (ground (arith, z), cc (rw (z, some_affected) at h))
    | inr z ↦ cc (rw (z, some_affected) at h)
  ]

  mark_outbox_published-Undone :
      (message_id : String) (at : Time) → Undone (mark_outbox_published engine message_id at)
  unfolding mark_outbox_published mark_row
  mark_outbox_published-Undone message_id at db e t h =
      let label : String = "mark outbox event published" in
      let marking = exec engine label (mark_row message_id at) in
      elim (bind-err (query engine label (λ d. count (is_markable message_id) d.outbox_events))
        (λ rows. marking >> some_affected rows) db e t h) [
          | inl k ↦ query-err engine label _ db e t k
          | inr (rows, s, q, k) ↦
              let (counted, same) = query-ok engine label _ db rows s q in
              elim (bind-err marking (λ u. some_affected rows) s e t k) [
                | inl j ↦ exec-err engine label _ s e t j ∙ same
                | inr (u, s', x, j) ↦
                    let (zero, stays) = some_affected-err rows s' e t j in
                    stays
                    ∙ (exec-ok engine label _ s s' x
                        ∙ (ap (mark_row message_id at) same
                            ∙ ap (λ o. record db { outbox_events = o })
                                (update-none (is_markable message_id) _ db.outbox_events
                                  (sym counted ∙ zero))))
              ]
        ]

  -- The calls of the memory store's interface, but for the claims.
  atomic_call-Undone : (c : Call) → (IsClaim c → ⊥) → Undone (apply engine c)
  unfolding apply insert_order update_order_status record_inventory_reserved
      record_inventory_rejected record_payment_authorized record_payment_failed
      record_shipment_created record_shipment_failed record_order_cancelled
      record_notification_queued record_compensation
  atomic_call-Undone (inserts merchant_id key order event audit) a =
      discard-Undone (insert_order engine merchant_id key order event audit)
        (in_transaction-err engine _ _ _)
  atomic_call-Undone (updates id status now event audit) a =
      discard-Undone (update_order_status engine id status now event audit)
        (in_transaction-err engine _ _ _)
  atomic_call-Undone (inventory_reserves source next audit) a = in_transaction-err engine _ _ _
  atomic_call-Undone (inventory_rejects source next audit) a = in_transaction-err engine _ _ _
  atomic_call-Undone (payment_authorizes source next payment audit) a =
      in_transaction-err engine _ _ _
  atomic_call-Undone (payment_fails source next audit) a = in_transaction-err engine _ _ _
  atomic_call-Undone (shipment_creates source next shipment audit) a =
      in_transaction-err engine _ _ _
  atomic_call-Undone (shipment_fails source next audit) a = in_transaction-err engine _ _ _
  atomic_call-Undone (order_cancels source next audit) a = in_transaction-err engine _ _ _
  atomic_call-Undone (notification_queues source audit) a = in_transaction-err engine _ _ _
  atomic_call-Undone (compensates source status audit) a = in_transaction-err engine _ _ _
  atomic_call-Undone (claims now limit) a = absurd (a tt)
  atomic_call-Undone (publishes message_id at) a = mark_outbox_published-Undone message_id at

  claims_call-err :
      (now : Time) (limit : ℕ) (db : Database) (e : Error) (t : Database)
      → apply engine (claims now limit) db ≡ (err e, t)
      → (t ≡ db) ⊎ (t ≡ claim_rows now (claim_limit limit) db)
  unfolding apply
  claims_call-err now limit db e t h =
      let m = pending_outbox_events engine now limit in
      let failed = forget-err (m db).0 e (ap (λ r. r.0) h) in
      elim (pending_outbox_events-err now limit db e (m db).1 (ap (λ r. (r, (m db).1)) failed)) [
        | inl k ↦ inl (sym (ap (λ r. r.1) h) ∙ k)
        | inr k ↦ inr (sym (ap (λ r. r.1) h) ∙ k)
      ]

  record_inbox_message-Undone :
      (consumer : String) (event : OutboxEvent)
      → Undone (record_inbox_message engine consumer event)
  unfolding record_inbox_message
  record_inbox_message-Undone consumer event db e t h =
      let label : String = "record inbox message" in
      let inserting =
        exec engine label
          (λ d. record d { inbox_messages = add_inbox_row consumer event d.inbox_messages }) in
      elim (bind-err
        (query engine label (λ d. any (is_message consumer event.message_id) d.inbox_messages))
        (λ known. inserting >> return (not known)) db e t h) [
          | inl k ↦ query-err engine label _ db e t k
          | inr (known, s, q, k) ↦ elim (bind-err inserting (λ u. return (not known)) s e t k) [
            | inl j ↦ exec-err engine label _ s e t j ∙ (query-ok engine label _ db known s q).1
            | inr (u, s', x, j) ↦ cc j
          ]
        ]

  -- Whichever writing method of the store fails, for whatever reason of the store or of the engine, the
  -- database is as it was before it; only a failed `PendingOutboxEvents` may also have claimed the rows
  -- of its batch, and then it has done that and nothing else.
  pub failed_call-same :
      (c : StoreCall) (db : Database) (e : Error) (t : Database)
      → store_call engine c db ≡ (err e, t)
      → (t ≡ db) ⊎ IsClaimed c db t
  unfolding store_call record_audit_log release_inbox_message
  failed_call-same (stores (claims now limit)) db e t h = claims_call-err now limit db e t h
  failed_call-same (stores c) db e t h = inl (atomic_call-Undone c (λ r. r) db e t h)
  failed_call-same (audits log) db e t h = inl (in_transaction-err engine _ _ _ db e t h)
  failed_call-same (records consumer event) db e t h = inl (
      discard-Undone (record_inbox_message engine consumer event)
        (record_inbox_message-Undone consumer event) db e t h)
  failed_call-same (releases consumer event) db e t h = inl (exec-err engine _ _ db e t h)
