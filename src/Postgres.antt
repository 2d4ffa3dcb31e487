-- ===== src/Postgres.antt =====
-- internal/postgres/store.go: `Store`, over the tables of internal/postgres/migrations.
-- A statement is a function on the database; its text is the label that an error of it carries in Go.
pub mod Tables
pub mod Rows
pub mod Orders
pub mod Stock
pub mod Writes
pub mod Projection
pub mod Outbox
pub mod Inbox
pub mod Rules
pub mod Calls
pub mod Contract
pub mod Ledger
use fulfillhub_go_commerce_p.Prelude.{
  ℕ, ◌==◌, String, Bool, true, false, Option, none, some, str_eq, if◌then◌else◌, is_some,
}
use fulfillhub_go_commerce_p.Prelude.Text.{◌++◌}
use fulfillhub_go_commerce_p.Commerce.Result.{
  Error, Result, Op, ok, err, failure, not_found, error_text,
}
use fulfillhub_go_commerce_p.Commerce.Model.{Time}
use fulfillhub_go_commerce_p.Commerce.Event.{OutboxEvent}
use fulfillhub_go_commerce_p.Postgres.Tables.{Database}

-- `pgconn.PgError`; the code is "" for an error that the server did not send.
pub record PgError : Type 0 where
  pub code : String
  pub message : String

-- The database server. It may refuse any statement for a reason of its own (the connection, a time
-- limit, the range of a column), and words the breach of a constraint of the schema; the rows that a
-- statement answers with may break off after some of them, when the statement is done. A TIMESTAMPTZ
-- and a CHAR(3) read as `read_time` and `read_code` say. The last two are encoding/json.
pub record Engine : Type 0 where
  pub refuses : String → Database → Option PgError
  pub breach : String → Database → String
  pub breaks_off : String → Database → Option (ℕ × PgError)
  pub read_time : Time → Time
  pub read_code : String → String
  pub marshal : OutboxEvent → Result String
  pub unmarshal : String → Result OutboxEvent

-- `fmt.Errorf("label: %w", err)`
unfoldable pub wrap : String → PgError → Error
wrap label e = failure (label ++ (": " ++ e.message))

unfoldable pub wrap_error : String → Error → Error
wrap_error label e = failure (label ++ (": " ++ error_text e))

unfoldable pub is_unique_violation : PgError → Bool
is_unique_violation e = str_eq e.code "23505"

abbrev pub check_violation : String
check_violation = "23514"

abbrev pub unique_violation : String
unique_violation = "23505"

abbrev pub foreign_key_violation : String
foreign_key_violation = "23503"

module _ {A : Type 0} where
  answered : (PgError → Error) → Option PgError → A → Database → Database → Result A × Database
  answered on_error none a before after = (ok a, after)
  answered on_error (some e) a before after = (err (on_error e), before)

  refused_then :
      (PgError → Error)
      → Option PgError
      → Option PgError
      → A
      → Database
      → Database
      → Result A × Database
  unfolding answered
  refused_then on_error none breach a before after = answered on_error breach a before after
  refused_then on_error (some e) breach a before after = (err (on_error e), before)

  closed :
      Option PgError
      → (String → PgError → Error)
      → String
      → A
      → Database
      → Database
      → Result A × Database
  closed none w label a before after = (ok a, after)
  closed (some e) w label a before after = (err (w label e), before)

module _ (engine : Engine) where
  breach_of : String → Option String → Database → Option PgError
  breach_of label none db = none
  breach_of label (some code) db = some (record { code = code; message = engine.breach label db })

  -- A statement that breaks the constraint of the given code, or runs.
  unfoldable pub exec_checked :
      String
      → (PgError → Error)
      → (Database → Option String)
      → (Database → Database)
      → Op Database (Unit {0})
  unfolding refused_then breach_of
  exec_checked label on_error breaks f db =
      refused_then on_error (engine.refuses label db) (breach_of label (breaks db) db) tt db (f db)

  -- `tx.ExecContext` with `return fmt.Errorf("label: %w", err)`.
  unfoldable pub exec : String → (Database → Database) → Op Database (Unit {0})
  unfolding answered wrap
  exec label f db = answered (wrap label) (engine.refuses label db) tt db (f db)

  -- `QueryContext` or `QueryRowContext`, with the iteration over its rows.
  unfoldable pub query : {A : Type 0} → String → (Database → A) → Op Database A
  unfolding answered wrap
  query label f db = answered (wrap label) (engine.refuses label db) (f db) db db

module _ {A : Type 0} where
  -- `sql.ErrNoRows`, turned into `commerce.ErrNotFound`.
  unfoldable pub found : Option A → Op Database A
  found none db = (err not_found, db)
  found (some a) db = (ok a, db)

-- `rows == 0` after a statement that updates the rows under one key.
unfoldable pub some_affected : ℕ → Op Database (Unit {0})
some_affected rows db = if rows == 0 then (err not_found, db) else (ok tt, db)

module _ (engine : Engine) {A : Type 0} where
  -- `tx.Commit()`, or the deferred `rollback`. A commit that reports an error is taken as not done.
  finish : (A → String) → Database → Result A × Database → Result A × Database
  unfolding closed
  finish label before (err e, after) = (err e, before)
  finish label before (ok a, after) =
      closed (engine.refuses (label a) after) wrap (label a) a before after

  begun : Option PgError → String → (A → String) → Op Database A → Op Database A
  unfolding finish
  begun none label commit body db = finish commit db (body db)
  begun (some e) label commit body db = (err (wrap label e), db)

  -- `BeginTx`, the body, and the end of the transaction.
  unfoldable pub in_transaction : String → (A → String) → Op Database A → Op Database A
  unfolding begun
  in_transaction label commit body db = begun (engine.refuses label db) label commit body db
