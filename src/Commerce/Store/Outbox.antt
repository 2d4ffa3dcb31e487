-- ===== src/Commerce/Store/Outbox.antt =====
-- internal/commerce/store.go: the outbox of `MemoryStore` as the relay and the metrics see it.
pub mod Claims
pub mod Published
use fulfillhub_go_commerce_p.Prelude.{
  ℕ, suc, ◌+◌, ◌-◌, ltb, ◌==◌, String, Bool, false, List, [], ◌∷◌, map, Option, none, some,
  if◌then◌else◌, length,
}
use fulfillhub_go_commerce_p.Dict
use fulfillhub_go_commerce_p.Dict.{Dict}
use fulfillhub_go_commerce_p.Commerce.Model.{Time}
use fulfillhub_go_commerce_p.Commerce.Event.{OutboxEvent, with_envelope_defaults}
use fulfillhub_go_commerce_p.Commerce.Store.{MemoryStore}

-- 30 seconds.
abbrev pub claim_lease : Time
claim_lease = 30000000000

unfoldable pub outbox_events : MemoryStore → List OutboxEvent
outbox_events s = map with_envelope_defaults s.outbox

abbrev pub is_published : MemoryStore → OutboxEvent → Bool
is_published s e = Dict.has s.published_outbox e.message_id

-- `claimedUntil, ok := …; ok && claimedUntil.After(now)`
abbrev pub claim_holds : Time → Option Time → Bool
claim_holds now none = false
claim_holds now (some until) = ltb now until

-- The loop of `PendingOutboxEvents` with `room` places left: the claims and the events taken.
-- It breaks when the last place is filled; `room` is never 0 at its start unless the outbox is empty.
unfoldable pub claim_pending :
    Time → Dict Time → ℕ → List OutboxEvent → Dict Time → Dict Time × List OutboxEvent
claim_pending now published room [] claims = (claims, [])
claim_pending now published room (e ∷ es) claims =
    let skipped = claim_pending now published room es claims in
    let taken =
      claim_pending now published (room - 1) es
        (Dict.put claims e.message_id (now + claim_lease)) in
    let claimed = Dict.put claims e.message_id (now + claim_lease) in
    if Dict.has published e.message_id
    then skipped
    else if claim_holds now (Dict.get claims e.message_id)
    then skipped
    else if room == 1
    then (claimed, with_envelope_defaults e ∷ [])
    else (taken.0, with_envelope_defaults e ∷ taken.1)

-- `limit` is 0 where the caller's limit is not positive.
unfoldable pub pending_outbox_events : Time → ℕ → MemoryStore → List OutboxEvent × MemoryStore
unfolding claim_pending
pending_outbox_events now limit s =
    let room = if limit == 0 then length s.outbox else limit in
    let (claims, events) = claim_pending now s.published_outbox room s.outbox s.claimed_outbox in
    (events, record s { claimed_outbox = claims })

count_pending : Dict Time → List OutboxEvent → ℕ
count_pending published [] = 0
count_pending published (e ∷ es) =
    let rest = count_pending published es in
    if Dict.has published e.message_id then rest else suc rest

unfoldable pub pending_outbox_count : MemoryStore → ℕ
unfolding count_pending
pending_outbox_count s = count_pending s.published_outbox s.outbox

older : Option OutboxEvent → OutboxEvent → Option OutboxEvent
older none e = some e
older (some oldest) e = if ltb e.occurred_at oldest.occurred_at then some e else some oldest

oldest_pending : Dict Time → Option OutboxEvent → List OutboxEvent → Option OutboxEvent
unfolding older
oldest_pending published oldest [] = oldest
oldest_pending published oldest (e ∷ es) =
    oldest_pending published (if Dict.has published e.message_id then oldest else older oldest e) es

-- The age in nanoseconds, where Go divides by 10 ^ 9 into a float; `time.Since` is not negative here.
unfoldable pub oldest_pending_outbox_age : Time → MemoryStore → Time
unfolding oldest_pending
oldest_pending_outbox_age now s = elim (oldest_pending s.published_outbox none s.outbox) [
  | none ↦ 0
  | some e ↦ now - e.occurred_at
]

unfoldable pub mark_outbox_published : String → Time → MemoryStore → MemoryStore
mark_outbox_published message_id at s = record s {
  published_outbox = Dict.put s.published_outbox message_id at;
  claimed_outbox = Dict.remove s.claimed_outbox message_id;
}
