-- ===== src/Commerce/Store/History/Relay.antt =====
-- internal/commerce/store.go: the published and the claimed events along a history of calls.
use fulfillhub_go_commerce_p.Prelude.{
  ℕ, ◌+◌, ◌<◌, ◌≢◌, String, ◌≡◌, refl, sym, ap, subst, ◌∙◌, true, List, [], ◌∷◌, some, inl, inr,
  ◌⊎◌, All, arith, eq_iff,
}
use fulfillhub_go_commerce_p.Dict
use fulfillhub_go_commerce_p.Dict.{Dict, get-put, get-put_cases, get-put_self, get-remove}
use fulfillhub_go_commerce_p.Commerce.Model.{Time}
use fulfillhub_go_commerce_p.Commerce.Event.{OutboxEvent}
use fulfillhub_go_commerce_p.Commerce.Store.{MemoryStore}
use fulfillhub_go_commerce_p.Commerce.Store.Move.{Move, stay, insert, advance, note, relay}
use fulfillhub_go_commerce_p.Commerce.Store.Outbox.{
  claim_lease, pending_outbox_events, mark_outbox_published,
}
use fulfillhub_go_commerce_p.Commerce.Store.Outbox.Claims.{
  claimed_not_taken, claim_kept, taken-Claimed,
}
use fulfillhub_go_commerce_p.Commerce.Store.Outbox.Published.{published_not_taken}
use fulfillhub_go_commerce_p.Commerce.Store.History.{
  Call, claims, publishes, apply, step, run, IsRelay, call-Outcome, Outcome-Move,
}

-- The relay's calls, and the others.
data Kind : Call → Type 0 where
  claiming : (now : Time) (limit : ℕ) → Kind (claims now limit)
  marking : (id : String) (at : Time) → Kind (publishes id at)
  other : {c : Call} → (IsRelay c → ⊥) → Kind c

kind : (c : Call) → Kind c
kind (claims now limit) = claiming now limit
kind (publishes id at) = marking id at
kind _ = other (λ r. r)

record SameMaps (s t : MemoryStore) : Type 0 where
  published : t.published_outbox ≡ s.published_outbox
  claimed : t.claimed_outbox ≡ s.claimed_outbox

SameMaps-refl : {s t u : MemoryStore} → t ≡ u → SameMaps s u → SameMaps s t
SameMaps-refl {s} e = subst (SameMaps s) (sym e)

Move-SameMaps : {s t : MemoryStore} → Move ⊥ s t → SameMaps s t
Move-SameMaps (stay e) = SameMaps-refl e (record { published = refl; claimed = refl })
Move-SameMaps (insert merchant_id key order event audit drawn new free e) =
    SameMaps-refl e (record { published = refl; claimed = refl })
Move-SameMaps (advance id old new events audit found terms legal e) =
    SameMaps-refl e (record { published = refl; claimed = refl })
Move-SameMaps (note audit e) = SameMaps-refl e (record { published = refl; claimed = refl })
Move-SameMaps (relay d published claimed e) = elim d [ ]

other-SameMaps : (c : Call) (s : MemoryStore) → (IsRelay c → ⊥) → SameMaps s (step s c)
unfolding step
other-SameMaps c s quiet =
    Move-SameMaps (Outcome-Move (apply c s) (call-Outcome c s (λ d. elim d [ ]) quiet))

abbrev pub IsPublished : String → MemoryStore → Type 0
IsPublished j s = Dict.has s.published_outbox j ≡ true

marked :
    (m : Dict Time) (id j : String) (at : Time)
    → Dict.has m j ≡ true
    → Dict.has (Dict.put m id at) j ≡ true
marked m id j at h = ground (arith, h, get-put m id j at)

call-IsPublished :
    (j : String) {c : Call}
    → Kind c
    → (s : MemoryStore) → IsPublished j s
    → IsPublished j (step s c)
unfolding step apply pending_outbox_events mark_outbox_published
call-IsPublished j (claiming now limit) s h = h
call-IsPublished j (marking id at) s h = marked s.published_outbox id j at h
call-IsPublished j {c} (other quiet) s h =
    subst (λ m. Dict.has m j ≡ true) (sym (other-SameMaps c s quiet).published) h

run-IsPublished :
    (j : String) (cs : List Call) (s : MemoryStore) → IsPublished j s → IsPublished j (run s cs)
unfolding run
run-IsPublished j [] s h = h
run-IsPublished j (c ∷ cs) s h = run-IsPublished j cs (step s c) (call-IsPublished j (kind c) s h)

-- An event that is marked as published, at whatever time, is in no batch that is taken afterwards,
-- whatever calls of the store lie in between.
pub published_not_pending :
    (id : String) (at now : Time) (limit : ℕ) (s : MemoryStore) (calls : List Call)
    → All
        (λ e. e.message_id ≢ id)
        (pending_outbox_events now limit (run (mark_outbox_published id at s) calls)).0
unfolding pending_outbox_events mark_outbox_published
published_not_pending id at now limit s calls =
    let t = run (mark_outbox_published id at s) calls in
    published_not_taken now t.published_outbox id
      (run-IsPublished id calls (mark_outbox_published id at s)
        (ground (arith, get-put s.published_outbox id id at, eq_iff id id)))
      _ t.outbox _

-- A claim that is there until the given time, or gave way to the mark of its event.
abbrev pub IsHeld : Time → String → MemoryStore → Type 0
IsHeld until j s = (Dict.get s.claimed_outbox j ≡ some until) ⊎ IsPublished j s

-- Claims are made before the given time.
abbrev pub IsWithin : Time → Call → Type 0
IsWithin until (claims now limit) = now < until
IsWithin until _ = Unit {0}

claimed-IsHeld :
    (until : Time) (j : String) (now : Time) (limit : ℕ) (s : MemoryStore)
    → now < until
    → IsHeld until j s
    → IsHeld until j (pending_outbox_events now limit s).1
unfolding pending_outbox_events
claimed-IsHeld until j now limit s early (inl h) =
    inl (claim_kept now s.published_outbox j until early _ s.outbox s.claimed_outbox h)
claimed-IsHeld until j now limit s early (inr h) = inr h

marked-IsHeld :
    (until : Time) (j id : String) (at : Time) (s : MemoryStore)
    → IsHeld until j s
    → IsHeld until j (mark_outbox_published id at s)
unfolding mark_outbox_published
marked-IsHeld until j id at s (inr h) = inr (marked s.published_outbox id j at h)
marked-IsHeld until j id at s (inl h) = elim (get-put_cases s.published_outbox id j at) [
  | inl (hit, e) ↦ inr (rw e refl)
  | inr (miss, e) ↦ inl (ground (arith, get-remove s.claimed_outbox id j, h, miss, eq_iff id j))
]

call-IsHeld :
    (until : Time) (j : String) {c : Call}
    → Kind c
    → (s : MemoryStore) → IsWithin until c
    → IsHeld until j s
    → IsHeld until j (step s c)
unfolding step apply
call-IsHeld until j (claiming now limit) s early h = claimed-IsHeld until j now limit s early h
call-IsHeld until j (marking id at) s early h = marked-IsHeld until j id at s h
call-IsHeld until j {c} (other quiet) s early h =
    let same = other-SameMaps c s quiet in
    elim h [
      | inl claim ↦ inl (ap (λ m. Dict.get m j) same.claimed ∙ claim)
      | inr mark ↦ inr (ap (λ m. Dict.has m j) same.published ∙ mark)
    ]

run-IsHeld :
    (until : Time) (j : String) (cs : List Call) (s : MemoryStore)
    → All (IsWithin until) cs
    → IsHeld until j s
    → IsHeld until j (run s cs)
unfolding run
run-IsHeld until j [] s early h = h
run-IsHeld until j (c ∷ cs) s early h =
    run-IsHeld until j cs (step s c) early.1 (call-IsHeld until j (kind c) s early.0 h)

held_not_taken :
    (until : Time) (j : String) (later : Time) (limit : ℕ) (s : MemoryStore)
    → later < until
    → IsHeld until j s
    → All (λ f. f.message_id ≢ j) (pending_outbox_events later limit s).0
unfolding pending_outbox_events
held_not_taken until j later limit s soon (inl h) =
    claimed_not_taken later s.published_outbox j _ s.outbox s.claimed_outbox
      (rw h (ground (arith, soon)))
held_not_taken until j later limit s soon (inr h) =
    published_not_taken later s.published_outbox j h _ s.outbox s.claimed_outbox

All-apart :
    (until later : Time) (limit : ℕ) (s : MemoryStore) (calls : List Call)
    (taken : List OutboxEvent)
    → later < until
    → All (IsWithin until) calls
    → All (λ e. Dict.get s.claimed_outbox e.message_id ≡ some until) taken
    → All
        (λ e.
          All
            (λ f. f.message_id ≢ e.message_id)
            (pending_outbox_events later limit (run s calls)).0)
        taken
All-apart until later limit s calls [] soon early claimed = tt
All-apart until later limit s calls (e ∷ taken) soon early claimed = (
  held_not_taken until e.message_id later limit (run s calls) soon
      (run-IsHeld until e.message_id calls s early (inl claimed.0)),
  All-apart until later limit s calls taken soon early claimed.1,
)

-- An event of one batch is in no batch that is taken before the first batch's lease of thirty seconds
-- has run out, by whichever relay; any calls of the store may lie in between, among them batches and
-- marks, where the batches too are taken before the lease runs out.
pub claims_exclusive :
    (now later : Time) (limit limit' : ℕ) (s : MemoryStore) (calls : List Call)
    → later < now + claim_lease
    → All (IsWithin (now + claim_lease)) calls
    → let (first, t) = pending_outbox_events now limit s in
      let (again, u) = pending_outbox_events later limit' (run t calls) in
      All (λ e. All (λ f. f.message_id ≢ e.message_id) again) first
unfolding pending_outbox_events
claims_exclusive now later limit limit' s calls soon early =
    All-apart (now + claim_lease) later limit' (pending_outbox_events now limit s).1 calls _ soon
      early (taken-Claimed now s.published_outbox _ s.outbox s.claimed_outbox)
