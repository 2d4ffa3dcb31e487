-- ===== src/Commerce/Store/Outbox/Published.antt =====
-- internal/commerce/store.go: the loop of `PendingOutboxEvents` and the published events.
use fulfillhub_go_commerce_p.Prelude.{
  ℕ, ◌+◌, ◌-◌, ◌==◌, String, ◌≡◌, ◌≢◌, true, false, List, [], ◌∷◌, Bool-cases, inl, inr, All,
}
use fulfillhub_go_commerce_p.Dict
use fulfillhub_go_commerce_p.Dict.{Dict, get-put}
use fulfillhub_go_commerce_p.Commerce.Model.{Time}
use fulfillhub_go_commerce_p.Commerce.Event.{OutboxEvent, with_envelope_defaults}
use fulfillhub_go_commerce_p.Commerce.Store.Outbox.{claim_lease, claim_pending}
use fulfillhub_go_commerce_p.Commerce.Store.Outbox.Claims.{
  turn, skips_published, skips_claimed, takes, message_id-defaults,
}

unpublished_differs :
    (published : Dict Time) (e : OutboxEvent) (j : String)
    → Dict.has published j ≡ true
    → Dict.has published e.message_id ≡ false
    → (with_envelope_defaults e).message_id ≢ j
unpublished_differs published e j h u same = cc (message_id-defaults e, same, h, u)

pub published_not_taken :
    (now : Time) (published : Dict Time) (j : String)
    → Dict.has published j ≡ true
    → (room : ℕ) (es : List OutboxEvent) (claims : Dict Time)
    → All (λ e. e.message_id ≢ j) (claim_pending now published room es claims).1
unfolding claim_pending
published_not_taken now published j h room [] claims = tt
published_not_taken now published j h room (e ∷ es) claims =
    let rest = published_not_taken now published j h room es claims in
    let more =
      published_not_taken now published j h (room - 1) es
        (Dict.put claims e.message_id (now + claim_lease)) in
    elim (turn now published claims e) [
      | skips_published p ↦ rw p rest
      | skips_claimed u c ↦ rw (u, c) rest
      | takes u f ↦ elim (Bool-cases (room == 1)) [
        | inl one ↦ rw (u, f, one) (unpublished_differs published e j h u, tt)
        | inr many ↦ rw (u, f, many) (unpublished_differs published e j h u, more)
      ]
    ]
