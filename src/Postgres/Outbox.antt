-- ===== src/Postgres/Outbox.antt =====
-- internal/postgres/store.go: the outbox as the relay and the metrics see it, the audit log, and the
-- counts. `now` is the time of the server at the statement.
pub mod Claims
use fulfillhub_go_commerce_p.Prelude.{
  ℕ, suc, ◌+◌, ◌-◌, leb, ltb, ◌==◌, String, Bool, true, false, not, ◌&&◌, List, [], ◌∷◌, ◌++◌, map,
  Option, none, some, str_eq, if◌then◌else◌, any, is_some,
}
use fulfillhub_go_commerce_p.Prelude.Int64.{Int64, is_below_one}
use fulfillhub_go_commerce_p.Commerce.Status.{OrderStatus, valid_order_statuses, status_eq}
use fulfillhub_go_commerce_p.Commerce.Model.{Time}
use fulfillhub_go_commerce_p.Commerce.Event.{OutboxEvent, AuditLog}
use fulfillhub_go_commerce_p.Commerce.Store.Outbox.{claim_lease}
use fulfillhub_go_commerce_p.Commerce.Result.{
  Result, Op, ok, err, not_found, return, fail, ◌>>=◌, ◌>>◌,
}
use fulfillhub_go_commerce_p.Postgres.Tables.{Database, OrderRow, OutboxRow, select, update, count}
use fulfillhub_go_commerce_p.Postgres.{
  PgError, Engine, wrap, wrap_error, exec, query, some_affected,
}
use fulfillhub_go_commerce_p.Postgres.Rows.{scan_outbox_events}

-- `ORDER BY key ASC`, with the rows of one key in the order of the table.
unfoldable pub insert_by : {A : Type 0} → (A → Time) → A → List A → List A
insert_by key x [] = x ∷ []
insert_by key x (y ∷ ys) =
    let rest = insert_by key x ys in if leb (key x) (key y) then x ∷ y ∷ ys else y ∷ rest

unfoldable pub order_by : {A : Type 0} → (A → Time) → List A → List A
unfolding insert_by
order_by key [] = []
order_by key (x ∷ xs) = insert_by key x (order_by key xs)

-- An error gives nil.
or_empty : {A : Type 0} → Result (List A) → List A
or_empty (ok rows) = rows
or_empty (err e) = []

unfoldable pub is_unpublished : OutboxRow → Bool
is_unpublished row = not (is_some row.published_at)

-- `claimed_until IS NULL OR claimed_until <= now()`
abbrev pub is_unclaimed : Time → Option Time → Bool
is_unclaimed now none = true
is_unclaimed now (some until) = leb until now

unfoldable pub is_claimable : Time → OutboxRow → Bool
unfolding is_unpublished
is_claimable now row = is_unpublished row && is_unclaimed now row.claimed_until

unfoldable pub first : {A : Type 0} → ℕ → List A → List A
first n [] = []
first n (x ∷ xs) = let rest = first (n - 1) xs in if n == 0 then [] else x ∷ rest

unfoldable pub picked : Time → ℕ → List OutboxRow → List OutboxRow
unfolding order_by is_claimable first
picked now limit rows =
    first limit (order_by (λ row. row.occurred_at) (select (is_claimable now) rows))

-- The rows that are read before the answer breaks off, if it does.
arrived : {A : Type 0} → Option (ℕ × PgError) → List A → List A
unfolding first
arrived none rows = rows
arrived (some (n, e)) rows = first n rows

-- The end of the loop of `PendingOutboxEvents`: a row that did not scan, or `rows.Err()`.
iterated : Option (ℕ × PgError) → Result (List OutboxEvent) → Result (List OutboxEvent)
iterated broken (err e) = err (wrap_error "scan pending outbox event" e)
iterated none (ok events) = ok events
iterated (some (n, e)) (ok events) = err (wrap "iterate pending outbox events" e)

abbrev pub has_row : OutboxRow → List OutboxRow → Bool
has_row row rows = any (λ p. str_eq p.message_id row.message_id) rows

unfoldable pub claim : Time → List OutboxRow → List OutboxRow → List OutboxRow
claim now chosen rows =
    update (λ row. has_row row chosen)
      (λ row. record row { claimed_until = some (now + claim_lease) }) rows

unfoldable pub claim_rows : Time → ℕ → Database → Database
unfolding claim picked
claim_rows now limit db = record db {
  outbox_events = claim now (picked now limit db.outbox_events) db.outbox_events;
}

-- `if limit <= 0 { limit = 100 }`
abbrev pub claim_limit : Int64 → ℕ
claim_limit limit = if is_below_one limit then 100 else limit

unfoldable pub oldest : Option Time → List OutboxRow → Option Time
oldest best [] = best
oldest none (row ∷ rows) = oldest (some row.occurred_at) rows
oldest (some t) (row ∷ rows) =
    oldest (some (if ltb row.occurred_at t then row.occurred_at else t)) rows

abbrev pub is_markable : String → OutboxRow → Bool
is_markable message_id row = str_eq row.message_id message_id && is_unpublished row

unfoldable pub mark_row : String → Time → Database → Database
unfolding is_unpublished
mark_row message_id at db = record db {
  outbox_events =
      update (is_markable message_id)
        (λ row. record row { published_at = some at; claimed_until = none }) db.outbox_events;
}

module _ (engine : Engine) where
  unfoldable pub outbox_events : Database → List OutboxEvent
  unfolding or_empty order_by arrived scan_outbox_events
  outbox_events db =
      let rows =
        or_empty
          (query engine "outbox events" (λ db. order_by (λ row. row.occurred_at) db.outbox_events)
            db).0 in
      or_empty (scan_outbox_events engine (arrived (engine.breaks_off "outbox events" db) rows))

  read_audit : AuditLog → AuditLog
  read_audit log = record log { created_at = engine.read_time log.created_at }

  unfoldable pub audit_logs : Database → List AuditLog
  unfolding or_empty order_by arrived read_audit
  audit_logs db =
      let rows =
        or_empty
          (query engine "audit logs" (λ db. order_by (λ log. log.created_at) db.audit_logs) db).0 in
      map read_audit (arrived (engine.breaks_off "audit logs" db) rows)

  -- The loop over the rows that the claim returned.
  unfoldable pub read_claimed : List OutboxRow → Database → Result (List OutboxEvent)
  unfolding arrived iterated scan_outbox_events
  read_claimed chosen db =
      let broken = engine.breaks_off "claim pending outbox events" db in
      iterated broken (scan_outbox_events engine (arrived broken chosen))

  -- The statement returns the rows it claims in no particular order; here in that of their times. An
  -- error while they are read leaves them claimed, since the statement has committed.
  unfoldable pub pending_outbox_events : Time → Int64 → Op Database (List OutboxEvent)
  unfolding claim_rows picked read_claimed
  pending_outbox_events now limit = do
    chosen ←
        query engine "claim pending outbox events"
          (λ db. picked now (claim_limit limit) db.outbox_events)
    exec engine "claim pending outbox events" (claim_rows now (claim_limit limit))
    (λ db. (read_claimed chosen db, db))

  unfoldable pub pending_outbox_count : Op Database ℕ
  unfolding is_unpublished
  pending_outbox_count =
      query engine "count pending outbox events" (λ db. count is_unpublished db.outbox_events)

  -- In nanoseconds, where the server gives the seconds; 0 where nothing is pending.
  unfoldable pub oldest_pending_outbox_age : Time → Op Database Time
  unfolding oldest is_unpublished
  oldest_pending_outbox_age now = query engine "measure oldest pending outbox age" (λ db.
      elim (oldest none (select is_unpublished db.outbox_events)) [ none ↦ 0 | some t ↦ now - t ])

  -- The count of a status, where a status without a row keeps the 0 it starts with.
  unfoldable pub order_status_counts : Op Database (OrderStatus → ℕ)
  order_status_counts =
      query engine "count orders by status"
        (λ db status. count (λ row. status_eq row.status status) db.orders)

  -- `RowsAffected` reports no error with the driver that go.mod names.
  unfoldable pub mark_outbox_published : String → Time → Op Database (Unit {0})
  unfolding mark_row is_unpublished
  mark_outbox_published message_id at = do
    rows ←
        query engine "mark outbox event published"
          (λ db. count (is_markable message_id) db.outbox_events)
    exec engine "mark outbox event published" (mark_row message_id at)
    some_affected rows
