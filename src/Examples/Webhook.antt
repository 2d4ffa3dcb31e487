-- ===== src/Examples/Webhook.antt =====
-- A provider's webhook, accepted once and then sent again.
use fulfillhub_go_commerce_p.Prelude.{refl, ◌≡◌, false, [], ◌∷◌, some, arith}
use fulfillhub_go_commerce_p.Prelude.Text.{◌++◌, trim_space}
use fulfillhub_go_commerce_p.Dict
use fulfillhub_go_commerce_p.Commerce.Result.{ok, is_ok}
use fulfillhub_go_commerce_p.Webhook.{
  Library, WebhookRequest, VerifiedWebhook, WebhookVerifier, MemoryWebhookReplayStore,
  new_memory_replay_store, memory_replay_store, verify, sign_webhook, check_webhook,
  parse_webhook_signatures, matches_signature,
}
use fulfillhub_go_commerce_p.Webhook.Signed.{IsChecked, IsRecorded, verified_signed}
use fulfillhub_go_commerce_p.Webhook.Replay.{Verification, IsBefore, verify_all, verified_once}

-- Stand-ins for crypto/hmac, encoding/hex, strconv and time.
abbrev toy : Library
toy = record {
  hmac_sha256 = λ secret text. secret ++ ("|" ++ text);
  encode_hex = λ s. s;
  decode_hex = λ s. some s;
  size = λ s. 32;
  parse_int = λ s. some 1000;
  format_int = λ n. "1000";
  unix = λ n. 1000000000000;
}

abbrev verifier : WebhookVerifier MemoryWebhookReplayStore
verifier = record {
  provider = " stripe";
  current_secret = "new";
  previous_secrets = "old" ∷ [];
  replay_store = some memory_replay_store;
  tolerance = 0;
  replay_ttl = 0;
}

abbrev request : WebhookRequest
request = record {
  event_id = "evt_1";
  timestamp = "1000";
  signature = "v0=x, v1=old|1000.evt_1.{}";
  payload = "{}";
}

abbrev first : Verification
first = record { verifier = verifier; request = request; now = 1000000000000 }

abbrev again : Verification
again = record { verifier = verifier; request = request; now = 1000000000001 }

abbrev result : VerifiedWebhook
result = record {
  provider = "stripe";
  event_id = "evt_1";
  timestamp = 1000000000000;
  received_at = 1000000000000;
  replay_expires_at = 87400000000000;
}

abbrev stored : MemoryWebhookReplayStore
stored = record { seen = Dict.put Dict.empty "stripe\0evt_1" 87400000000000 }

signature_matches : sign_webhook toy "old" "evt_1" 1000 "{}" ≡ "v1=old|1000.evt_1.{}"
unfolding sign_webhook
signature_matches = refl

is_accepted :
    verify toy verifier request 1000000000000 new_memory_replay_store ≡ (ok result, stored)
unfolding verify check_webhook trim_space parse_webhook_signatures matches_signature
    memory_replay_store Dict.get Dict.retain new_memory_replay_store Dict.empty
is_accepted = refl

verified_signed_example :
    IsChecked toy verifier request 1000000000000 result
    × IsRecorded verifier result new_memory_replay_store stored
verified_signed_example =
    verified_signed toy verifier request 1000000000000 new_memory_replay_store stored result
      is_accepted

verified_once_example :
    is_ok (verify toy verifier request 1000000000001 (verify_all toy (again ∷ []) stored)).0 ≡ false
unfolding IsBefore trim_space
verified_once_example =
    verified_once toy first again result new_memory_replay_store stored (again ∷ []) refl
      is_accepted ((refl, omega arith), tt) (refl, omega arith) refl refl
