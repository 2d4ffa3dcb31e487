-- ===== src/Messaging/Relay/Once.antt =====
-- One run of the relay over the memory store.
use mathlib.Core.List.{append_assoc, append-nil}
use fulfillhub_go_commerce_p.Prelude.{
  ℕ, suc, ◌+◌, String, ◌≡◌, refl, ◌∙◌, ap, true, List, [], ◌∷◌, ◌++◌, Option, none, some, All,
  arith, length, Option-cases, inl, inr, eq_iff,
}
use fulfillhub_go_commerce_p.Dict
use fulfillhub_go_commerce_p.Dict.{Dict, get-put}
use fulfillhub_go_commerce_p.Commerce.Model.{Time}
use fulfillhub_go_commerce_p.Commerce.Event.{OutboxEvent}
use fulfillhub_go_commerce_p.Commerce.Result.{Error, Result, Op, ok, err}
use fulfillhub_go_commerce_p.Commerce.Store.{MemoryStore}
use fulfillhub_go_commerce_p.Commerce.Store.Outbox.{pending_outbox_events, mark_outbox_published}
use fulfillhub_go_commerce_p.Messaging.Relay.{
  Relay, Run, publish_all, run_once, memory_source, after_pending, publish_error, after_publish,
}

-- A publisher that appends what it accepts to a log and refuses the events that `refuses` says.
abbrev pub logged : (OutboxEvent → Option Error) → OutboxEvent → Op (List OutboxEvent) (Unit {0})
logged refuses event log = elim (refuses event) [
  | none ↦ (ok tt, log ++ event ∷ [])
  | some e ↦ (err e, log)
]

module _ (refuses : OutboxEvent → Option Error) (event : OutboxEvent) (log : List OutboxEvent) where
  logged_accepts : refuses event ≡ none → logged refuses event log ≡ (ok tt, log ++ event ∷ [])
  logged_accepts fine = rw (fine, logged) refl

  logged_refuses : (e : Error) → refuses event ≡ some e → logged refuses event log ≡ (err e, log)
  logged_refuses e refusal = rw (refusal, logged) refl

abbrev pub relay :
    Time → (ℕ → Time) → (OutboxEvent → Option Error) → Relay MemoryStore (List OutboxEvent)
relay now clock refuses = record {
  source = memory_source now;
  publish = logged refuses;
  clock = clock;
}

abbrev pub IsMarked : MemoryStore → OutboxEvent → Type 0
IsMarked s event = Dict.has s.published_outbox event.message_id ≡ true

stays-IsMarked :
    (s : MemoryStore) (id : String) (at : Time) (event : OutboxEvent)
    → IsMarked s event
    → IsMarked (mark_outbox_published id at s) event
unfolding mark_outbox_published
stays-IsMarked s id at event h = ground (arith, get-put s.published_outbox id event.message_id at)

now-IsMarked :
    (s : MemoryStore) (at : Time) (event : OutboxEvent)
    → IsMarked (mark_outbox_published event.message_id at s) event
unfolding mark_outbox_published
now-IsMarked s at event = ground (
  arith,
  get-put s.published_outbox event.message_id event.message_id at,
  eq_iff event.message_id event.message_id,
)

-- What a run over `events` leaves: it publishes `sent` in order, marks each of them, counts them, and
-- stops before `rest`, which is empty if there is no error.
pub record Published (events log : List OutboxEvent) (n : ℕ) (refuses : OutboxEvent → Option Error)
    (r : Run MemoryStore (List OutboxEvent)) : Type 0 where
  pub sent : List OutboxEvent
  pub rest : List OutboxEvent
  pub split : events ≡ sent ++ rest
  pub logged_as : r.publisher ≡ log ++ sent
  pub counted : r.published ≡ n + length sent
  pub accepted : All (λ e. refuses e ≡ none) sent
  pub marked : All (IsMarked r.source) sent
  pub complete : r.error ≡ none → rest ≡ []

module _ (now : Time) (clock : ℕ → Time) (refuses : OutboxEvent → Option Error) where
  abbrev looped :
      OutboxEvent
      → List OutboxEvent
      → ℕ
      → MemoryStore
      → Result (Unit {0}) × List OutboxEvent
      → Run MemoryStore (List OutboxEvent)
  looped event events n s x =
      let t = mark_outbox_published event.message_id (clock n) s in
      after_publish (relay now clock refuses) n event x.0 (ok tt) s t x.1
        (publish_all (relay now clock refuses) events (suc n) t x.1)

  accepted_goes_on :
      (event : OutboxEvent) (events : List OutboxEvent) (n : ℕ) (s : MemoryStore)
      (log : List OutboxEvent)
      → refuses event ≡ none
      → publish_all (relay now clock refuses) (event ∷ events) n s log
        ≡ publish_all
            (relay now clock refuses)
            events
            (suc n)
            (mark_outbox_published event.message_id (clock n) s)
            (log ++ event ∷ [])
  unfolding publish_all memory_source after_publish
  accepted_goes_on event events n s log fine =
      ap (looped event events n s) (logged_accepts refuses event log fine)

  refusal_stops :
      (event : OutboxEvent) (events : List OutboxEvent) (n : ℕ) (s : MemoryStore)
      (log : List OutboxEvent) (e : Error)
      → refuses event ≡ some e
      → publish_all (relay now clock refuses) (event ∷ events) n s log ≡ record {
        published = n;
        error = some (publish_error event e);
        source = s;
        publisher = log;
      }
  unfolding publish_all memory_source after_publish
  refusal_stops event events n s log e refusal =
      ap (looped event events n s) (logged_refuses refuses event log e refusal)

  -- A mark that was made before the loop is there after it.
  marks_stay :
      (events : List OutboxEvent) (n : ℕ) (s : MemoryStore) (log : List OutboxEvent)
      (e : OutboxEvent)
      → IsMarked s e
      → IsMarked (publish_all (relay now clock refuses) events n s log).source e
  unfolding publish_all memory_source
  marks_stay [] n s log e h = h
  marks_stay (event ∷ events) n s log e h = elim (Option-cases (refuses event)) [
    | inr (x, refusal) ↦ rw (refusal_stops event events n s log x refusal) h
    | inl fine ↦ rw (accepted_goes_on event events n s log fine) (
        marks_stay events (suc n) (mark_outbox_published event.message_id (clock n) s)
          (log ++ event ∷ []) e (stays-IsMarked s event.message_id (clock n) e h))
  ]

  publish_all-Published :
      (events : List OutboxEvent) (n : ℕ) (s : MemoryStore) (log : List OutboxEvent)
      → Published events log n refuses (publish_all (relay now clock refuses) events n s log)
  unfolding publish_all memory_source
  publish_all-Published [] n s log = record {
    sent = [];
    rest = [];
    split = refl;
    logged_as = rw append-nil;
    counted = omega arith;
    accepted = tt;
    marked = tt;
    complete = λ h. refl;
  }
  publish_all-Published (event ∷ events) n s log = elim (Option-cases (refuses event)) [
    | inr (x, refusal) ↦ rw (refusal_stops event events n s log x refusal) (record {
      sent = [];
      rest = event ∷ events;
      split = refl;
      logged_as = rw append-nil;
      counted = omega arith;
      accepted = tt;
      marked = tt;
      complete = λ h. absurd (cc h);
    })
    | inl fine ↦
        let t = mark_outbox_published event.message_id (clock n) s in
        let v = publish_all-Published events (suc n) t (log ++ event ∷ []) in
        rw (accepted_goes_on event events n s log fine) (record {
          sent = event ∷ v.sent;
          rest = v.rest;
          split = ap (λ es. event ∷ es) v.split;
          logged_as = v.logged_as ∙ append_assoc log (event ∷ []) v.sent;
          counted = omega (arith, v.counted);
          accepted = (fine, v.accepted);
          marked = (
            marks_stay events (suc n) t (log ++ event ∷ []) event (now-IsMarked s (clock n) event),
            v.marked,
          );
          complete = v.complete;
        })
  ]

-- A run over the memory store publishes, in order, a first part of the pending batch, all of which
-- the publisher accepted; it counts these events and marks each of them as published; and if it
-- reports no error, this part is the whole batch.
pub run_once-Published :
    (now : Time) (clock : ℕ → Time) (refuses : OutboxEvent → Option Error) (limit : ℕ)
    (s : MemoryStore) (log : List OutboxEvent)
    → Published
        (pending_outbox_events now limit s).0
        log
        0
        refuses
        (run_once (relay now clock refuses) limit s log)
unfolding run_once after_pending memory_source
run_once-Published now clock refuses limit s log =
    publish_all-Published now clock refuses (pending_outbox_events now limit s).0 0
      (pending_outbox_events now limit s).1 log
