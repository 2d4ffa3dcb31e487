-- ===== src/Messaging/Relay.antt =====
-- internal/messaging/relay.go: `Relay.RunOnce`, over a source and a publisher with states of their
-- own. Tracing is left out.
pub mod Once
use Prim.Native.String.{◌++◌}
use fulfillhub_go_commerce_p.Prelude.{ℕ, suc, String, List, [], ◌∷◌, Option, none, some}
use fulfillhub_go_commerce_p.Commerce.Model.{Time}
use fulfillhub_go_commerce_p.Commerce.Event.{OutboxEvent}
use fulfillhub_go_commerce_p.Commerce.Result.{Error, error_text, Result, Op, ok, err, failure}
use fulfillhub_go_commerce_p.Commerce.Store.{MemoryStore}
use fulfillhub_go_commerce_p.Commerce.Store.Outbox.{pending_outbox_events, mark_outbox_published}

pub record OutboxSource (S : Type 0) : Type 0 where
  pub pending : ℕ → Op S (List OutboxEvent)
  pub mark_published : String → Time → Op S (Unit {0})

-- `clock n` is the reading of the clock after `n` publications of the run.
pub record Relay (S P : Type 0) : Type 0 where
  pub source : OutboxSource S
  pub publish : OutboxEvent → Op P (Unit {0})
  pub clock : ℕ → Time

-- The number of publications that `RunOnce` reports, its error, and both states.
pub record Run (S P : Type 0) : Type 0 where
  pub published : ℕ
  pub error : Option Error
  pub source : S
  pub publisher : P

abbrev publish_error : OutboxEvent → Error → Error
publish_error event e = failure ("publish " ++ (event.message_id ++ (": " ++ error_text e)))

abbrev mark_error : OutboxEvent → Error → Error
mark_error event e = failure ("mark " ++ (event.message_id ++ (" published: " ++ error_text e)))

module _ {S P : Type 0} (r : Relay S P) where
  -- The early returns on the error of a publication and of a mark, and the rest of the loop. The
  -- source is `s` before the mark and `t` after it.
  after_publish :
      ℕ → OutboxEvent → Result (Unit {0}) → Result (Unit {0}) → S → S → P → Run S P → Run S P
  after_publish n event (err e) marked s t q rest = record {
    published = n;
    error = some (publish_error event e);
    source = s;
    publisher = q;
  }
  after_publish n event (ok _) (err e) s t q rest = record {
    published = n;
    error = some (mark_error event e);
    source = t;
    publisher = q;
  }
  after_publish n event (ok _) (ok _) s t q rest = rest

  -- The loop over the events that are left when `n` are published.
  publish_all : List OutboxEvent → ℕ → S → P → Run S P
  unfolding after_publish
  publish_all [] n s p = record { published = n; error = none; source = s; publisher = p }
  publish_all (event ∷ events) n s p =
      let (sent, q) = r.publish event p in
      let (marked, t) = r.source.mark_published event.message_id (r.clock n) s in
      after_publish n event sent marked s t q (publish_all events (suc n) t q)

  after_pending : Result (List OutboxEvent) → S → P → Run S P
  unfolding publish_all
  after_pending (err e) s p = record {
    published = 0;
    error = some (failure ("load pending outbox events: " ++ error_text e));
    source = s;
    publisher = p;
  }
  after_pending (ok events) s p = publish_all events 0 s p

  unfoldable pub run_once : ℕ → S → P → Run S P
  unfolding after_pending
  run_once limit s p = let (events, t) = r.source.pending limit s in after_pending events t p

-- The memory store as a source, at a reading of the clock.
unfoldable pub memory_source : Time → OutboxSource MemoryStore
memory_source now = record {
  pending = λ limit s. (let (events, t) = pending_outbox_events now limit s in (ok events, t));
  mark_published = λ message_id at s. (ok tt, mark_outbox_published message_id at s);
}
