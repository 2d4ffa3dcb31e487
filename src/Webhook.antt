-- ===== src/Webhook.antt =====
-- internal/providers/webhook.go: the verification of a provider's webhook and the memory store of the
-- events that were accepted. A text of bytes is a string.
pub mod Replay
pub mod Signed
use Prim.Native.Char.{Char, code}
use fulfillhub_go_commerce_p.Prelude.{
  ℕ, ◌+◌, ◌*◌, ltb, ◌==◌, String, Bool, true, false, not, ◌&&◌, ◌||◌, List, [], ◌∷◌, any, Option,
  none, some, str_eq, if◌then◌else◌,
}
use fulfillhub_go_commerce_p.Prelude.Int64.{Int64}
use fulfillhub_go_commerce_p.Prelude.Text.{◌++◌, trim_space}
use fulfillhub_go_commerce_p.Dict
use fulfillhub_go_commerce_p.Dict.{Dict}
use fulfillhub_go_commerce_p.Commerce.Model.{Time}
use fulfillhub_go_commerce_p.Commerce.Result.{Error, error_text, Result, Op, ok, err, failure}

-- crypto/hmac with SHA-256, encoding/hex, strconv and time.Unix.
pub record Library : Type 0 where
  pub hmac_sha256 : String → String → String
  pub encode_hex : String → String
  pub decode_hex : String → Option String
  pub size : String → ℕ
  pub parse_int : String → Option Int64
  pub format_int : Int64 → String
  pub unix : Int64 → Time

pub record WebhookRequest : Type 0 where
  pub event_id : String
  pub timestamp : String
  pub signature : String
  pub payload : String

pub record VerifiedWebhook : Type 0 where
  pub provider : String
  pub event_id : String
  pub timestamp : Time
  pub received_at : Time
  pub replay_expires_at : Time

-- A store of accepted events, over its state.
pub record WebhookReplayStore (R : Type 0) : Type 0 where
  pub record_webhook : String → String → Time → Time → Op R Bool

-- The clock is an argument of the operations; a zero duration stands for the default.
pub record WebhookVerifier (R : Type 0) : Type 0 where
  pub provider : String
  pub current_secret : String
  pub previous_secrets : List String
  pub replay_store : Option (WebhookReplayStore R)
  pub tolerance : Time
  pub replay_ttl : Time

abbrev pub default_tolerance : Time
default_tolerance = 300000000000

abbrev pub default_replay_ttl : Time
default_replay_ttl = 86400000000000

present : List String → List String
present [] = []
present (value ∷ values) =
    let rest = present values in
    if str_eq (trim_space value) "" then rest else trim_space value ∷ rest

push : Char → List String → List String
push c [] = []
push c (part ∷ parts) = String.◌∷◌ c part ∷ parts

-- `strings.Split(s, ",")`
split_commas : String → List String
unfolding push
split_commas String.[] = "" ∷ []
split_commas (String.◌∷◌ c s) =
    let rest = split_commas s in if code c == 44 then "" ∷ rest else push c rest

push_key : Char → Option (String × String) → Option (String × String)
push_key c none = none
push_key c (some (key, value)) = some (String.◌∷◌ c key, value)

-- `strings.Cut(s, "=")`
cut_equals : String → Option (String × String)
unfolding push_key
cut_equals String.[] = none
cut_equals (String.◌∷◌ c s) =
    let rest = push_key c (cut_equals s) in if code c == 61 then some ("", s) else rest

module _ (lib : Library) where
  -- A digest has 32 bytes.
  digest_of : Option String → Option String
  digest_of none = none
  digest_of (some bytes) = if lib.size bytes == 32 then some bytes else none

  signature_of : Option (String × String) → Option String
  unfolding digest_of
  signature_of none = none
  signature_of (some (key, value)) =
      if str_eq key "v1" then digest_of (lib.decode_hex (trim_space value)) else none

  keep : Option String → List String → List String
  keep none rest = rest
  keep (some bytes) rest = bytes ∷ rest

  signatures_in : List String → List String
  unfolding keep signature_of cut_equals
  signatures_in [] = []
  signatures_in (part ∷ parts) =
      keep (signature_of (cut_equals (trim_space part))) (signatures_in parts)

  unfoldable pub parse_webhook_signatures : String → List String
  unfolding signatures_in split_commas
  parse_webhook_signatures header = signatures_in (split_commas header)

  unfoldable pub webhook_digest : String → String → Int64 → String → String
  webhook_digest secret event_id timestamp payload =
      lib.hmac_sha256 secret (lib.format_int timestamp ++ ("." ++ (event_id ++ ("." ++ payload))))

  unfoldable pub sign_webhook : String → String → Int64 → String → String
  unfolding webhook_digest
  sign_webhook secret event_id timestamp payload =
      "v1=" ++ lib.encode_hex (webhook_digest secret event_id timestamp payload)

  unfoldable pub matches_signature : List String → String → Int64 → String → List String → Bool
  unfolding webhook_digest
  matches_signature secrets event_id timestamp payload signatures =
      any
        (λ secret.
          any (λ got. str_eq got (webhook_digest secret event_id timestamp payload)) signatures)
        secrets

-- `timestamp.Before(now.Add(-tolerance)) || timestamp.After(now.Add(tolerance))`
abbrev pub outside : Time → Time → Time → Bool
outside timestamp tolerance now = ltb (timestamp + tolerance) now || ltb (now + tolerance) timestamp

unfoldable pub is_nil : List String → Bool
is_nil [] = true
is_nil (x ∷ xs) = false

module _ {R : Type 0} where
  unfoldable pub secrets : WebhookVerifier R → List String
  unfolding present
  secrets v = present (v.current_secret ∷ v.previous_secrets)

  abbrev pub tolerance_of : WebhookVerifier R → Time
  tolerance_of v = if v.tolerance == 0 then default_tolerance else v.tolerance

  abbrev pub ttl_of : WebhookVerifier R → Time
  ttl_of v = if v.replay_ttl == 0 then default_replay_ttl else v.replay_ttl

  unfoldable pub accepted : VerifiedWebhook → Result Bool × R → Result VerifiedWebhook × R
  accepted w (ok true, r) = (ok w, r)
  accepted w (ok false, r) = (err (failure "webhook event was already accepted"), r)
  accepted w (err e, r) =
      (err (failure ("webhook replay store is unavailable: " ++ error_text e)), r)

  unfoldable pub record_accepted :
      Option (WebhookReplayStore R) → Result VerifiedWebhook → Op R VerifiedWebhook
  unfolding accepted
  record_accepted store (err e) r = (err e, r)
  record_accepted none (ok w) r = (ok w, r)
  record_accepted (some store) (ok w) r =
      accepted w (store.record_webhook w.provider w.event_id w.received_at w.replay_expires_at r)

module _ {R : Type 0} (lib : Library) where
  unfoldable pub check_signature :
      WebhookVerifier R → WebhookRequest → Time → Option Int64 → Result VerifiedWebhook
  unfolding secrets is_nil
  check_signature v request now none = err (failure "webhook timestamp is invalid")
  check_signature v request now (some at) =
      if outside (lib.unix at) (tolerance_of v) now
      then err (failure "webhook timestamp is outside tolerance")
      else if is_nil (parse_webhook_signatures lib request.signature)
      then err (failure "webhook signature is invalid")
      else if not (
          matches_signature lib (secrets v) (trim_space request.event_id) at request.payload
            (parse_webhook_signatures lib request.signature))
      then err (failure "webhook signature is invalid")
      else ok (record {
        provider = trim_space v.provider;
        event_id = trim_space request.event_id;
        timestamp = lib.unix at;
        received_at = now;
        replay_expires_at = now + ttl_of v;
      })

  -- `Verify` up to the replay store.
  unfoldable pub check_webhook : WebhookVerifier R → WebhookRequest → Time → Result VerifiedWebhook
  unfolding check_signature secrets is_nil
  check_webhook v request now =
      if str_eq (trim_space v.provider) ""
      then err (failure "webhook provider is required")
      else if is_nil (secrets v)
      then err (failure "webhook signing secret is required")
      else if str_eq (trim_space request.event_id) ""
      then err (failure "webhook event id is required")
      else if str_eq (trim_space request.timestamp) ""
      then err (failure "webhook timestamp is required")
      else if str_eq (trim_space request.signature) ""
      then err (failure "webhook signature is required")
      else check_signature v request now (lib.parse_int (trim_space request.timestamp))

  unfoldable pub verify : WebhookVerifier R → WebhookRequest → Time → Op R VerifiedWebhook
  unfolding record_accepted
  verify v request now = record_accepted v.replay_store (check_webhook v request now)

pub record MemoryWebhookReplayStore : Type 0 where
  pub seen : Dict Time

unfoldable pub new_memory_replay_store : MemoryWebhookReplayStore
new_memory_replay_store = record { seen = Dict.empty }

unfoldable pub replay_key : String → String → String
replay_key provider event_id = provider ++ ("\0" ++ event_id)

-- `existing, ok := s.seen[key]; ok && existing.After(receivedAt)`
abbrev pub is_live_until : Time → Option Time → Bool
is_live_until now none = false
is_live_until now (some expires_at) = ltb now expires_at

-- Entries that have expired are deleted first.
unfoldable pub record_webhook : String → String → Time → Time → Op MemoryWebhookReplayStore Bool
unfolding replay_key
record_webhook provider event_id received_at expires_at s =
    let kept = Dict.retain (ltb received_at) s.seen in
    if is_live_until received_at (Dict.get kept (replay_key provider event_id))
    then (ok false, record { seen = kept })
    else (ok true, record { seen = Dict.put kept (replay_key provider event_id) expires_at })

unfoldable pub memory_replay_store : WebhookReplayStore MemoryWebhookReplayStore
unfolding record_webhook
memory_replay_store = record { record_webhook = record_webhook }
