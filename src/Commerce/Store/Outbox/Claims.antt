-- ===== src/Commerce/Store/Outbox/Claims.antt =====
-- internal/commerce/store.go: the loop of `PendingOutboxEvents` and its claims.
use fulfillhub_go_commerce_p.Prelude.{
  ℕ, ◌+◌, ◌-◌, ◌≤◌, ◌<◌, ◌==◌, String, ◌≡◌, ◌∙◌, true, false, List, [], ◌∷◌, some, length, All,
  Bool-cases, inl, inr, arith, ◌≢◌,
}
use fulfillhub_go_commerce_p.Dict
use fulfillhub_go_commerce_p.Dict.{Dict, get-put, get-put_cases, get-put_self}
use fulfillhub_go_commerce_p.Commerce.Model.{Time}
use fulfillhub_go_commerce_p.Commerce.Event.{OutboxEvent, with_envelope_defaults}
use fulfillhub_go_commerce_p.Commerce.Store.{MemoryStore}
use fulfillhub_go_commerce_p.Commerce.Store.Outbox.{
  claim_lease, claim_holds, claim_pending, pending_outbox_events,
}

pub message_id-defaults : (e : OutboxEvent) → (with_envelope_defaults e).message_id ≡ e.message_id
unfolding with_envelope_defaults
message_id-defaults e = ground arith

-- The step of the loop at one event.
pub data Turn (now : Time) (published claims : Dict Time) (e : OutboxEvent) : Type 0 where
  skips_published : Dict.has published e.message_id ≡ true → Turn now published claims e
  skips_claimed :
      Dict.has published e.message_id ≡ false
      → claim_holds now (Dict.get claims e.message_id) ≡ true
      → Turn now published claims e
  takes :
      Dict.has published e.message_id ≡ false
      → claim_holds now (Dict.get claims e.message_id) ≡ false
      → Turn now published claims e

pub turn :
    (now : Time) (published claims : Dict Time) (e : OutboxEvent) → Turn now published claims e
turn now published claims e = elim (Bool-cases (Dict.has published e.message_id)) [
  | inl p ↦ skips_published p
  | inr u ↦ elim (Bool-cases (claim_holds now (Dict.get claims e.message_id))) [
    | inl h ↦ skips_claimed u h
    | inr f ↦ takes u f
  ]
]

-- A claim that holds keeps holding while the loop runs.
holds-put :
    (now : Time) (claims : Dict Time) (k j : String)
    → claim_holds now (Dict.get claims j) ≡ true
    → claim_holds now (Dict.get (Dict.put claims k (now + claim_lease)) j) ≡ true
holds-put now claims k j h = ground (arith, get-put claims k j (now + claim_lease))

holds_differs :
    (now : Time) (claims : Dict Time) (e : OutboxEvent) (j : String)
    → claim_holds now (Dict.get claims j) ≡ true
    → claim_holds now (Dict.get claims e.message_id) ≡ false
    → (with_envelope_defaults e).message_id ≢ j
holds_differs now claims e j h f same = cc (message_id-defaults e, same, h, f)

module _ (now : Time) (published : Dict Time) (j : String) where
  abbrev pub Apart : List OutboxEvent → Type 0
  Apart = All (λ e. e.message_id ≢ j)

  -- No event is taken whose claim holds at the start.
  pub claimed_not_taken :
      (room : ℕ) (es : List OutboxEvent) (claims : Dict Time)
      → claim_holds now (Dict.get claims j) ≡ true
      → Apart (claim_pending now published room es claims).1
  unfolding claim_pending
  claimed_not_taken room [] claims h = tt
  claimed_not_taken room (e ∷ es) claims h =
      let rest = claimed_not_taken room es claims h in
      let more =
        claimed_not_taken (room - 1) es (Dict.put claims e.message_id (now + claim_lease))
          (holds-put now claims e.message_id j h) in
      elim (turn now published claims e) [
        | skips_published p ↦ rw p rest
        | skips_claimed u c ↦ rw (u, c) rest
        | takes u f ↦ elim (Bool-cases (room == 1)) [
          | inl one ↦ rw (u, f, one) (holds_differs now claims e j h f, tt)
          | inr many ↦ rw (u, f, many) (holds_differs now claims e j h f, more)
        ]
      ]

  -- A claim of this round is still there at its end.
  claim_stays :
      (room : ℕ) (es : List OutboxEvent) (claims : Dict Time)
      → Dict.get claims j ≡ some (now + claim_lease)
      → Dict.get (claim_pending now published room es claims).0 j ≡ some (now + claim_lease)
  unfolding claim_pending
  claim_stays room [] claims h = h
  claim_stays room (e ∷ es) claims h =
      let rest = claim_stays room es claims h in
      let claimed : Dict.get (Dict.put claims e.message_id (now + claim_lease)) j
          ≡ some (now + claim_lease) =
        ground (arith, get-put claims e.message_id j (now + claim_lease)) in
      let more =
        claim_stays (room - 1) es (Dict.put claims e.message_id (now + claim_lease)) claimed in
      elim (turn now published claims e) [
        | skips_published p ↦ rw p rest
        | skips_claimed u c ↦ rw (u, c) rest
        | takes u f ↦ elim (Bool-cases (room == 1)) [
          | inl one ↦ rw (u, f, one) claimed
          | inr many ↦ rw (u, f, many) more
        ]
      ]

  -- A claim that holds is not touched.
  pub claim_kept :
      (until : Time)
      → now < until
      → (room : ℕ) (es : List OutboxEvent) (claims : Dict Time) → Dict.get claims j ≡ some until
      → Dict.get (claim_pending now published room es claims).0 j ≡ some until
  unfolding claim_pending
  claim_kept until early room [] claims h = h
  claim_kept until early room (e ∷ es) claims h =
      let rest = claim_kept until early room es claims h in
      let holds : claim_holds now (Dict.get claims j) ≡ true = rw h (ground (arith, early)) in
      elim (turn now published claims e) [
        | skips_published p ↦ rw p rest
        | skips_claimed u c ↦ rw (u, c) rest
        | takes u f ↦
            let put : Dict.get (Dict.put claims e.message_id (now + claim_lease)) j ≡ some until =
              elim (get-put_cases claims e.message_id j (now + claim_lease)) [
                | inl (hit, w) ↦ absurd (cc (hit, holds, f))
                | inr (miss, w) ↦ w ∙ h
              ] in
            elim (Bool-cases (room == 1)) [
              | inl one ↦ rw (u, f, one) put
              | inr many ↦
                  rw (u, f, many)
                    (claim_kept until early (room - 1) es
                      (Dict.put claims e.message_id (now + claim_lease)) put)
            ]
      ]

module _ (now : Time) (published : Dict Time) where
  -- Every event that is taken is claimed for the lease.
  abbrev pub Claimed : Dict Time → List OutboxEvent → Type 0
  Claimed claims = All (λ e. Dict.get claims e.message_id ≡ some (now + claim_lease))

  pub taken-Claimed :
      (room : ℕ) (es : List OutboxEvent) (claims : Dict Time)
      → let r = claim_pending now published room es claims in Claimed r.0 r.1
  unfolding claim_pending
  taken-Claimed room [] claims = tt
  taken-Claimed room (e ∷ es) claims =
      let rest = taken-Claimed room es claims in
      let claims' = Dict.put claims e.message_id (now + claim_lease) in
      let claimed : Dict.get claims' (with_envelope_defaults e).message_id
          ≡ some (now + claim_lease) =
        rw (message_id-defaults e) (get-put_self claims e.message_id (now + claim_lease)) in
      let more = taken-Claimed (room - 1) es claims' in
      elim (turn now published claims e) [
        | skips_published p ↦ rw p rest
        | skips_claimed u c ↦ rw (u, c) rest
        | takes u f ↦ elim (Bool-cases (room == 1)) [
          | inl one ↦ rw (u, f, one) (claimed, tt)
          | inr many ↦
              rw (u, f, many)
                (
                  claim_stays now published (with_envelope_defaults e).message_id (room - 1) es
                      claims' claimed,
                  more,
                )
        ]
      ]

  taken_bounded :
      (room : ℕ) (es : List OutboxEvent) (claims : Dict Time)
      → 0 < room
      → length (claim_pending now published room es claims).1 ≤ room
  unfolding claim_pending
  taken_bounded room [] claims h = omega arith
  taken_bounded room (e ∷ es) claims h = ground (
    arith,
    taken_bounded room es claims h,
    taken_bounded (room - 1) es (Dict.put claims e.message_id (now + claim_lease)),
  )

-- With a positive limit no more events are returned than the limit says.
pub pending_outbox_events_bounded :
    (now : Time) (limit : ℕ) (s : MemoryStore)
    → 0 < limit
    → length (pending_outbox_events now limit s).0 ≤ limit
unfolding pending_outbox_events
pending_outbox_events_bounded now limit s h =
    ground (arith, taken_bounded now s.published_outbox limit s.outbox s.claimed_outbox h)
