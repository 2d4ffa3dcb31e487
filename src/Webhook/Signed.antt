-- ===== src/Webhook/Signed.antt =====
-- internal/providers/webhook.go: what an accepted webhook carries.
use fulfillhub_go_commerce_p.Prelude.{
  ◌+◌, ◌≤◌, String, ◌≡◌, ◌≢◌, refl, sym, ap, Bool, true, false, not, List, [], ◌∷◌, any, Option,
  none, some, str_eq, if◌then◌else◌, arith, eq_iff, sym, ap, Bool-cases, inl, inr, ◌⊎◌,
}
use fulfillhub_go_commerce_p.Prelude.Int64.{Int64}
use fulfillhub_go_commerce_p.Prelude.Text.{◌++◌, trim_space}
use fulfillhub_go_commerce_p.Commerce.Model.{Time}
use fulfillhub_go_commerce_p.Commerce.Result.{Error, Result, ok, err}
use fulfillhub_go_commerce_p.Webhook.{
  Library, WebhookReplayStore, WebhookRequest, VerifiedWebhook, WebhookVerifier, secrets,
  tolerance_of, ttl_of, outside, is_nil, parse_webhook_signatures, webhook_digest,
  matches_signature, check_signature, check_webhook, accepted, record_accepted, verify,
}

-- A property of some entry.
Some : {A : Type 0} → (A → Type 0) → List A → Type 0
Some P [] = ⊥
Some P (x ∷ xs) = P x ⊎ Some P xs

any-Some :
    {A : Type 0} (p : A → Bool) (P : A → Type 0)
    → ((x : A) → p x ≡ true → P x)
    → (xs : List A) → any p xs ≡ true
    → Some P xs
unfolding Some
any-Some p P found [] h = cc h
any-Some p P found (x ∷ xs) h = elim (Bool-cases (p x)) [
  | inl hit ↦ inl (found x hit)
  | inr missed ↦ inr (any-Some p P found xs (rw missed at h))
]

equal_texts : (a b : String) → str_eq a b ≡ true → a ≡ b
equal_texts a b h = ground (arith, h, eq_iff a b)

-- A check that was passed.
passed :
    {A : Type 0} (b : Bool) (e : Error) (r : Result A) (a : A)
    → (if b then err e else r) ≡ ok a
    → (b ≡ false) × (r ≡ ok a)
passed true e r a h = cc h
passed false e r a h = (refl, h)

ok-injective : {A : Type 0} (a b : A) → ok a ≡ ok b → a ≡ b
ok-injective a b h = cc h

-- A provider that holds one of the verifier's secrets signed the request's id and payload.
pub IsSignedAt : {R : Type 0} → Library → WebhookVerifier R → WebhookRequest → Int64 → Type 0
IsSignedAt lib v request at =
    Some
      (λ secret.
        Some
          (λ got.
            got
            ≡ lib.hmac_sha256 secret (
                lib.format_int at
                ++ ("." ++ (trim_space request.event_id ++ ("." ++ request.payload)))))
          (parse_webhook_signatures lib request.signature))
      (secrets v)

-- The replay store, where there is one, took the event.
unfoldable pub IsRecorded : {R : Type 0} → WebhookVerifier R → VerifiedWebhook → R → R → Type 0
IsRecorded {R} v w r t =
    ((v.replay_store ≡ none) × (r ≡ t))
    ⊎ ((store : WebhookReplayStore R) × (v.replay_store ≡ some store)
        × (store.record_webhook w.provider w.event_id w.received_at w.replay_expires_at r
            ≡ (ok true, t)))

module _ {R : Type 0} (lib : Library) where
  matches_signature-IsSignedAt :
      (v : WebhookVerifier R) (request : WebhookRequest) (at : Int64)
      → matches_signature lib
          (secrets v)
          (trim_space request.event_id)
          at
          request.payload
          (parse_webhook_signatures lib request.signature)
        ≡ true
      → IsSignedAt lib v request at
  unfolding matches_signature webhook_digest IsSignedAt
  matches_signature-IsSignedAt v request at h =
      any-Some _ _ (λ secret some_got. any-Some _ _ (λ got same. equal_texts got _ same) _ some_got)
        (secrets v) h

  -- What holds of a webhook that passed the checks.
  pub record IsChecked (v : WebhookVerifier R) (request : WebhookRequest) (now : Time)
      (w : VerifiedWebhook) : Type 0 where
    pub at : Int64
    pub parsed : lib.parse_int (trim_space request.timestamp) ≡ some at
    pub signed : IsSignedAt lib v request at
    pub recent : now ≤ lib.unix at + tolerance_of v
    pub not_ahead : lib.unix at ≤ now + tolerance_of v
    pub named : trim_space request.event_id ≢ ""
    pub content : w ≡ record {
      provider = trim_space v.provider;
      event_id = trim_space request.event_id;
      timestamp = lib.unix at;
      received_at = now;
      replay_expires_at = now + ttl_of v;
    }

  check_signature-IsChecked :
      (v : WebhookVerifier R) (request : WebhookRequest) (now : Time) (parsed : Option Int64)
      (w : VerifiedWebhook)
      → lib.parse_int (trim_space request.timestamp) ≡ parsed
      → trim_space request.event_id ≢ ""
      → check_signature lib v request now parsed ≡ ok w
      → IsChecked v request now w
  unfolding check_signature
  check_signature-IsChecked v request now none w read named h = cc h
  check_signature-IsChecked v request now (some at) w read named h =
      let (inside, h1) = passed (outside (lib.unix at) (tolerance_of v) now) _ _ w h in
      let (_, h2) = passed (is_nil (parse_webhook_signatures lib request.signature)) _ _ w h1 in
      let (matched, content) =
        passed
          (not (
            matches_signature lib (secrets v) (trim_space request.event_id) at request.payload
              (parse_webhook_signatures lib request.signature)))
          _ _ w h2 in
      record {
        at = at;
        parsed = read;
        signed = matches_signature-IsSignedAt v request at (ground (arith, matched));
        recent = ground (arith, inside);
        not_ahead = ground (arith, inside);
        named = named;
        content = sym (ok-injective _ w content);
      }

  pub check_webhook-IsChecked :
      (v : WebhookVerifier R) (request : WebhookRequest) (now : Time) (w : VerifiedWebhook)
      → check_webhook lib v request now ≡ ok w
      → IsChecked v request now w
  unfolding check_webhook
  check_webhook-IsChecked v request now w h =
      let (_, h1) = passed (str_eq (trim_space v.provider) "") _ _ w h in
      let (_, h2) = passed (is_nil (secrets v)) _ _ w h1 in
      let (present, h3) = passed (str_eq (trim_space request.event_id) "") _ _ w h2 in
      let (_, h4) = passed (str_eq (trim_space request.timestamp) "") _ _ w h3 in
      let (_, h5) = passed (str_eq (trim_space request.signature) "") _ _ w h4 in
      check_signature-IsChecked v request now _ w refl
        (ground (arith, present, eq_iff (trim_space request.event_id) "")) h5

  accepted-ok :
      (w x : VerifiedWebhook) (answer : Result Bool × R) (t : R)
      → accepted w answer ≡ (ok x, t)
      → (w ≡ x) × (answer ≡ (ok true, t))
  unfolding accepted
  accepted-ok w x (ok true, r) t h = (cc h, cc h)
  accepted-ok w x (ok false, r) t h = cc h
  accepted-ok w x (err e, r) t h = cc h

  record_accepted-ok :
      (store : Option (WebhookReplayStore R)) (checked : Result VerifiedWebhook) (r t : R)
      (w : VerifiedWebhook)
      → record_accepted store checked r ≡ (ok w, t)
      → (checked ≡ ok w)
        × (((store ≡ none) × (r ≡ t))
            ⊎ ((s : WebhookReplayStore R) × (store ≡ some s)
                × (s.record_webhook w.provider w.event_id w.received_at w.replay_expires_at r
                    ≡ (ok true, t))))
  unfolding record_accepted
  record_accepted-ok store (err e) r t w h = cc h
  record_accepted-ok none (ok x) r t w h = (cc h, inl (refl, cc h))
  record_accepted-ok (some s) (ok x) r t w h =
      let (same, answer) = accepted-ok x w _ t h in (ap ok same, inr (s, refl, (rw same at answer)))

  -- A webhook that is accepted carries a signature, in its signature header, by one of the verifier's
  -- secrets over its own timestamp, id and payload; its timestamp is inside the tolerance; its id is
  -- not blank; the result has the trimmed names and the times; and the replay store, where there is
  -- one, answered that the event is new.
  pub verified_signed :
      (v : WebhookVerifier R) (request : WebhookRequest) (now : Time) (r t : R)
      (w : VerifiedWebhook)
      → verify lib v request now r ≡ (ok w, t)
      → IsChecked v request now w × IsRecorded v w r t
  unfolding verify IsRecorded
  verified_signed v request now r t w h =
      let (checked, recorded) =
        record_accepted-ok v.replay_store (check_webhook lib v request now) r t w h in
      (check_webhook-IsChecked v request now w checked, recorded)
