-- ===== src/Webhook/Replay.antt =====
-- internal/providers/webhook.go: an accepted event is not accepted again before its entry expires.
use mathlib.Core.Option.{some-injective}
use fulfillhub_go_commerce_p.Prelude.{
  ◌<◌, String, ◌≡◌, refl, sym, ◌∙◌, ap, subst, Bool, true, false, List, [], ◌∷◌, Option, some, All,
  ltb, arith, Bool-cases, inl, inr,
}
use fulfillhub_go_commerce_p.Prelude.Text.{trim_space}
use fulfillhub_go_commerce_p.Dict
use fulfillhub_go_commerce_p.Dict.{get-retain, get-put_cases, get-put_self}
use fulfillhub_go_commerce_p.Commerce.Model.{Time}
use fulfillhub_go_commerce_p.Commerce.Result.{Result, ok, err, is_ok}
use fulfillhub_go_commerce_p.Webhook.{
  Library, WebhookReplayStore, WebhookRequest, VerifiedWebhook, WebhookVerifier,
  MemoryWebhookReplayStore, replay_key, is_live_until, record_webhook, memory_replay_store,
  check_webhook, accepted, record_accepted, verify,
}
use fulfillhub_go_commerce_p.Webhook.Signed.{IsRecorded, verified_signed, check_webhook-IsChecked}

-- The store holds the event's entry.
IsHeld : String → String → Time → MemoryWebhookReplayStore → Type 0
IsHeld provider event_id expires s = Dict.get s.seen (replay_key provider event_id) ≡ some expires

live_entry : (now expires : Time) → now < expires → ltb now expires ≡ true
live_entry now expires h = ground arith

-- Recording any event at a time before the entry expires keeps it.
record_webhook-IsHeld :
    (provider event_id p id : String) (now expires e : Time) (s : MemoryWebhookReplayStore)
    → now < expires
    → IsHeld provider event_id expires s
    → IsHeld provider event_id expires (record_webhook p id now e s).1
unfolding IsHeld record_webhook
record_webhook-IsHeld provider event_id p id now expires e s before held =
    let kept =
      get-retain (ltb now) s.seen (replay_key provider event_id) expires held
        (live_entry now expires before) in
    let m = Dict.retain (ltb now) s.seen in
    elim (Bool-cases (is_live_until now (Dict.get m (replay_key p id)))) [
      | inl live ↦ rw live kept
      | inr gone ↦
          rw gone (elim (get-put_cases m (replay_key p id) (replay_key provider event_id) e) [
            | inl (same, _) ↦ cc (rw kept at (rw same at gone), live_entry now expires before)
            | inr (_, stays) ↦ cc (stays, kept)
          ])
    ]

held_refused :
    (provider event_id : String) (now expires e : Time) (s : MemoryWebhookReplayStore)
    → now < expires
    → IsHeld provider event_id expires s
    → (record_webhook provider event_id now e s).0 ≡ ok false
unfolding IsHeld record_webhook
held_refused provider event_id now expires e s before held =
    rw
      (get-retain (ltb now) s.seen (replay_key provider event_id) expires held
        (live_entry now expires before))
      (rw (live_entry now expires before) refl)

recorded-IsHeld :
    (provider event_id : String) (now e : Time) (s t : MemoryWebhookReplayStore)
    → record_webhook provider event_id now e s ≡ (ok true, t)
    → IsHeld provider event_id e t
unfolding IsHeld record_webhook
recorded-IsHeld provider event_id now e s t h =
    let m = Dict.retain (ltb now) s.seen in
    elim (Bool-cases (is_live_until now (Dict.get m (replay_key provider event_id)))) [
      | inl live ↦ cc (rw live at h)
      | inr gone ↦
          let q : record { seen = Dict.put m (replay_key provider event_id) e } ≡ t =
            cc (rw gone at h) in
          subst (λ x. Dict.get x.seen (replay_key provider event_id) ≡ some e) q
            (get-put_self m (replay_key provider event_id) e)
    ]

-- A verification: a verifier that shares the store, a request and the time.
pub record Verification : Type 0 where
  pub verifier : WebhookVerifier MemoryWebhookReplayStore
  pub request : WebhookRequest
  pub now : Time

unfoldable pub IsBefore : Time → Verification → Type 0
IsBefore expires c = (c.verifier.replay_store ≡ some memory_replay_store) × (c.now < expires)

module _ (lib : Library) where
  pub verify_all : List Verification → MemoryWebhookReplayStore → MemoryWebhookReplayStore
  verify_all [] s = s
  verify_all (c ∷ calls) s = verify_all calls (verify lib c.verifier c.request c.now s).1

  accepted_state :
      (w : VerifiedWebhook) (answer : Result Bool × MemoryWebhookReplayStore)
      → (accepted w answer).1 ≡ answer.1
  unfolding accepted
  accepted_state w (ok true, r) = refl
  accepted_state w (ok false, r) = refl
  accepted_state w (err e, r) = refl

  check_time :
      (c : Verification) (w : VerifiedWebhook)
      → check_webhook lib c.verifier c.request c.now ≡ ok w
      → w.received_at ≡ c.now
  check_time c w h =
      ap (λ x. x.received_at) (check_webhook-IsChecked lib c.verifier c.request c.now w h).content

  record_accepted-IsHeld :
      (provider event_id : String) (now expires : Time)
      (store : Option (WebhookReplayStore MemoryWebhookReplayStore))
      (checked : Result VerifiedWebhook) (s : MemoryWebhookReplayStore)
      → store ≡ some memory_replay_store
      → ((w : VerifiedWebhook) → checked ≡ ok w → w.received_at ≡ now)
      → now < expires
      → IsHeld provider event_id expires s
      → IsHeld provider event_id expires (record_accepted store checked s).1
  unfolding record_accepted memory_replay_store
  record_accepted-IsHeld provider event_id now expires store (err e) s shared timed before held =
      held
  record_accepted-IsHeld provider event_id now expires store (ok w) s shared timed before held =
      rw
        (
          shared,
          accepted_state w
              (record_webhook w.provider w.event_id w.received_at w.replay_expires_at s),
        )
        (record_webhook-IsHeld provider event_id w.provider w.event_id w.received_at expires
          w.replay_expires_at s (rw (timed w refl) before) held)

  verify-IsHeld :
      (provider event_id : String) (expires : Time) (c : Verification)
      (s : MemoryWebhookReplayStore)
      → IsBefore expires c
      → IsHeld provider event_id expires s
      → IsHeld provider event_id expires (verify lib c.verifier c.request c.now s).1
  unfolding verify IsBefore
  verify-IsHeld provider event_id expires c s before held =
      record_accepted-IsHeld provider event_id c.now expires c.verifier.replay_store
        (check_webhook lib c.verifier c.request c.now) s before.0 (check_time c) before.1 held

  verify_all-IsHeld :
      (provider event_id : String) (expires : Time) (calls : List Verification)
      (s : MemoryWebhookReplayStore)
      → All (IsBefore expires) calls
      → IsHeld provider event_id expires s
      → IsHeld provider event_id expires (verify_all calls s)
  unfolding verify_all
  verify_all-IsHeld provider event_id expires [] s before held = held
  verify_all-IsHeld provider event_id expires (c ∷ calls) s before held =
      verify_all-IsHeld provider event_id expires calls _ before.1
        (verify-IsHeld provider event_id expires c s before.0 held)

  accepted_once :
      (first : Verification) (w : VerifiedWebhook) (s t : MemoryWebhookReplayStore)
      → first.verifier.replay_store ≡ some memory_replay_store
      → verify lib first.verifier first.request first.now s ≡ (ok w, t)
      → IsHeld w.provider w.event_id w.replay_expires_at t
  unfolding IsRecorded memory_replay_store
  accepted_once first w s t shared h =
      elim (verified_signed lib first.verifier first.request first.now s t w h).1 [
        | inl (missing, _) ↦ cc (missing, shared)
        | inr (store, given, answer) ↦
            let same : store ≡ memory_replay_store =
              some-injective store memory_replay_store (sym given ∙ shared) in
            recorded-IsHeld w.provider w.event_id w.received_at w.replay_expires_at s t (
              subst
                (λ m.
                  m.record_webhook w.provider w.event_id w.received_at w.replay_expires_at s
                  ≡ (ok true, t))
                same answer)
      ]

  refused_answer :
      (w : VerifiedWebhook) (answer : Result Bool × MemoryWebhookReplayStore)
      → answer.0 ≡ ok false
      → is_ok (accepted w answer).0 ≡ false
  unfolding accepted
  refused_answer w (ok true, r) h = cc h
  refused_answer w (ok false, r) h = refl
  refused_answer w (err e, r) h = refl

  not_accepted :
      (store : Option (WebhookReplayStore MemoryWebhookReplayStore))
      (checked : Result VerifiedWebhook) (s : MemoryWebhookReplayStore)
      → store ≡ some memory_replay_store
      → ((w : VerifiedWebhook)
          → checked ≡ ok w
          → (record_webhook w.provider w.event_id w.received_at w.replay_expires_at s).0 ≡ ok false)
      → is_ok (record_accepted store checked s).0 ≡ false
  unfolding record_accepted memory_replay_store
  not_accepted store (err e) s shared refused = refl
  not_accepted store (ok w) s shared refused = rw shared (refused_answer w _ (refused w refl))

  -- On the memory store, an event that was accepted is refused, from whichever verifier of that
  -- provider name and with whichever content, until its entry expires; verifications of any requests
  -- by verifiers on the same store may lie in between.
  pub verified_once :
      (first again : Verification) (w : VerifiedWebhook) (s t : MemoryWebhookReplayStore)
      (calls : List Verification)
      → first.verifier.replay_store ≡ some memory_replay_store
      → verify lib first.verifier first.request first.now s ≡ (ok w, t)
      → All (IsBefore w.replay_expires_at) calls
      → IsBefore w.replay_expires_at again
      → trim_space again.verifier.provider ≡ w.provider
      → trim_space again.request.event_id ≡ w.event_id
      → is_ok (verify lib again.verifier again.request again.now (verify_all calls t)).0 ≡ false
  unfolding verify IsBefore
  verified_once first again w s t calls shared h between before provider event_id =
      let held =
        verify_all-IsHeld w.provider w.event_id w.replay_expires_at calls t between
          (accepted_once first w s t shared h) in
      not_accepted again.verifier.replay_store
        (check_webhook lib again.verifier again.request again.now) (verify_all calls t) before.0
        (λ x checked.
          let content =
            (check_webhook-IsChecked lib again.verifier again.request again.now x
              checked).content in
          let names : (w.provider ≡ x.provider) × (w.event_id ≡ x.event_id) =
            (cc (content, provider), cc (content, event_id)) in
          held_refused x.provider x.event_id x.received_at w.replay_expires_at x.replay_expires_at
            (verify_all calls t) (rw (check_time again x checked) before.1)
            (subst (λ p. IsHeld p x.event_id w.replay_expires_at (verify_all calls t)) names.0
              (subst (λ e. IsHeld w.provider e w.replay_expires_at (verify_all calls t)) names.1
                held)))
