-- ===== src/Postgres/Inbox.antt =====
-- internal/postgres/store.go: `RecordInboxMessage` and `ReleaseInboxMessage`, and the store as the
-- recorder of a persistent inbox.
pub mod Once
use fulfillhub_go_commerce_p.Prelude.{
  String, Bool, true, false, not, ◌&&◌, List, [], ◌∷◌, ◌++◌, any, Option, none, some, str_eq,
  if◌then◌else◌,
}
use fulfillhub_go_commerce_p.Commerce.Event.{OutboxEvent}
use fulfillhub_go_commerce_p.Commerce.Result.{Op, return, ◌>>=◌, ◌>>◌}
use fulfillhub_go_commerce_p.Messaging.Inbox.{InboxRecorder}
use fulfillhub_go_commerce_p.Postgres.Tables.{Database, InboxRow, select}
use fulfillhub_go_commerce_p.Postgres.{Engine, exec, query}

abbrev pub is_message : String → String → InboxRow → Bool
is_message consumer message_id row =
    str_eq row.consumer_name consumer && str_eq row.message_id message_id

-- `INSERT … ON CONFLICT DO NOTHING`
unfoldable pub add_inbox_row : String → OutboxEvent → List InboxRow → List InboxRow
add_inbox_row consumer event rows =
    if any (is_message consumer event.message_id) rows
    then rows
    else rows
      ++ record {
        consumer_name = consumer;
        message_id = event.message_id;
        correlation_id = event.correlation_id;
      }
        ∷ []

module _ (engine : Engine) where
  -- `rows == 1`: the statement inserted the row.
  unfoldable pub record_inbox_message : String → OutboxEvent → Op Database Bool
  unfolding add_inbox_row
  record_inbox_message consumer event = do
    known ←
        query engine "record inbox message"
          (λ db. any (is_message consumer event.message_id) db.inbox_messages)
    exec engine "record inbox message"
        (λ db. record db { inbox_messages = add_inbox_row consumer event db.inbox_messages })
    return (not known)

  unfoldable pub release_inbox_message : String → OutboxEvent → Op Database (Unit {0})
  release_inbox_message consumer event = exec engine "release inbox message" (λ db. record db {
    inbox_messages =
        select (λ row. not (is_message consumer event.message_id row)) db.inbox_messages;
  })

  unfoldable pub inbox_recorder : InboxRecorder Database
  inbox_recorder = record {
    record_inbox_message = record_inbox_message;
    release_inbox_message = some release_inbox_message;
  }
