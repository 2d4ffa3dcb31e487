-- ===== src/Messaging/Inbox.antt =====
-- internal/messaging/inbox.go: the inbox interface and `MemoryInbox`. The persistent inbox hands both
-- calls to a recorder, which is the interface again.
use Prim.Native.String.{◌++◌}
use fulfillhub_go_commerce_p.Prelude.{String, Bool, true, false, Option, none, some, if◌then◌else◌}
use fulfillhub_go_commerce_p.Dict
use fulfillhub_go_commerce_p.Dict.{Dict}
use fulfillhub_go_commerce_p.Commerce.Event.{OutboxEvent}
use fulfillhub_go_commerce_p.Commerce.Result.{Op, ok, err, failure}

-- `release` is `none` for an inbox that is not a `ReleasableInbox`.
pub record Inbox (I : Type 0) : Type 0 where
  pub record_message : String → OutboxEvent → Op I Bool
  pub release : Option (String → OutboxEvent → Op I (Unit {0}))

-- The recorder of a `PersistentInbox`, which may be nil, and which may not support the release.
pub record InboxRecorder (I : Type 0) : Type 0 where
  pub record_inbox_message : String → OutboxEvent → Op I Bool
  pub release_inbox_message : Option (String → OutboxEvent → Op I (Unit {0}))

module _ {I : Type 0} where
  persistent_record : Option (InboxRecorder I) → String → OutboxEvent → Op I Bool
  persistent_record none consumer event i =
      (err (failure "persistent inbox recorder is required"), i)
  persistent_record (some recorder) consumer event i =
      recorder.record_inbox_message consumer event i

  release_by :
      Option (String → OutboxEvent → Op I (Unit {0})) → String → OutboxEvent → Op I (Unit {0})
  release_by none consumer event i =
      (err (failure "persistent inbox recorder does not support release"), i)
  release_by (some release) consumer event i = release consumer event i

  persistent_release : Option (InboxRecorder I) → String → OutboxEvent → Op I (Unit {0})
  unfolding release_by
  persistent_release none consumer event i = release_by none consumer event i
  persistent_release (some recorder) consumer event i =
      release_by recorder.release_inbox_message consumer event i

  unfoldable pub persistent_inbox : Option (InboxRecorder I) → Inbox I
  unfolding persistent_record persistent_release
  persistent_inbox recorder = record {
    record_message = persistent_record recorder;
    release = some (persistent_release recorder);
  }

pub record MemoryInbox : Type 0 where
  pub processed : Dict (Unit {0})

unfoldable pub new_memory_inbox : MemoryInbox
new_memory_inbox = record { processed = Dict.empty }

unfoldable pub inbox_key : String → OutboxEvent → String
inbox_key consumer event = consumer ++ (":" ++ event.message_id)

unfoldable pub record_inbox : String → OutboxEvent → Op MemoryInbox Bool
unfolding inbox_key
record_inbox consumer event i =
    if Dict.has i.processed (inbox_key consumer event)
    then (ok false, i)
    else (ok true, record { processed = Dict.put i.processed (inbox_key consumer event) tt })

unfoldable pub release_inbox : String → OutboxEvent → Op MemoryInbox (Unit {0})
unfolding inbox_key
release_inbox consumer event i =
    (ok tt, record { processed = Dict.remove i.processed (inbox_key consumer event) })

unfoldable pub memory_inbox : Inbox MemoryInbox
unfolding record_inbox release_inbox
memory_inbox = record { record_message = record_inbox; release = some release_inbox }
