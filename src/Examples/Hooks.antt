-- ===== src/Examples/Hooks.antt =====
-- packages/partner-transport: runs of the webhook's receiver, where a MAC is the secret and the request.
use contactless_airlock_lab.Prelude.{
  ◌≡◌, refl, ℕ, true, false, Text, text, text_Eq, text_eq, matches_id, matches_id_up_to, Option,
  none, some, List, [], ◌∷◌, ◌++◌, suc, ok, Exec, lookup, insert, arith,
}
use contactless_airlock_lab.Partner.{
  PartnerError, Digests, Delivery, ReplayStore, Verified, live, consume_once, is_timestamp, decimal,
  failures, verify_partner_webhook,
}
use contactless_airlock_lab.Partner.Replay.{Call, is_accepted, run, replay_refused}
use contactless_airlock_lab.Partner.Window.{at_end, replayed_at_window_end}
use contactless_airlock_lab.Partner.Json.{Json, string, object, field, no_fields}
use contactless_airlock_lab.Partner.Forms.{is_canonical_time}
use contactless_airlock_lab.Partner.Contract.{partner_envelope_failure}
use contactless_airlock_lab.Partner.Receiver.{
  accepted, PartnerReceipt, Receiver, run_once, receive_parsed, receive_verified,
  receive_partner_webhook,
}
use contactless_airlock_lab.Partner.Receipts.{IsRepeat, received_once}
use contactless_airlock_lab.Partner.Receipts.{run as run_receiver}
use contactless_airlock_lab.Prelude.{text_le, ◌⊎◌, ◌>>=◌}
use contactless_airlock_lab.Partner.{PartnerSigningKey, sign_partner_webhook}
use contactless_airlock_lab.Storage.{OutboxEvent, OutboxTable}
use contactless_airlock_lab.Storage.Outbox.{
  new_event, claimed, delivered, claim_outbox, claim_selected, claim_rows, candidates, iso_ltb,
  take, sort, place, acknowledge_outbox, update_row,
}
use contactless_airlock_lab.Partner.Dispatcher.{
  outbox_source, Options, Attempt, Dispatcher, Encoding, is_success, is_policy, ask, recover,
  dispatch_once, dispatch_all, dispatch_event, try_event, send_event, settle, acknowledge_delivery,
}
use contactless_airlock_lab.Partner.Dispatcher.Answered.{is_buried}
use contactless_airlock_lab.Partner.Dispatcher.Once.{acknowledged_after}

abbrev digests : Digests
digests = record { sha256_hex = λ body. body; hmac_hex = λ secret t. secret ++ t; utf8 = λ t. t }

abbrev secret : List ℕ
secret = text "0123456789abcdef0123456789abcdef"

abbrev keys : Text → Option (List ℕ)
keys id = some secret

-- A request by a nonce and an instant, sent at 900.
abbrev request : Text → ℕ → Delivery
request nonce now = record {
  body = text "b";
  headers = record {
    idempotency_key = some (text "i1");
    key_id = some (text "k1");
    nonce = some nonce;
    signature = some (
        text "v1="
        ++ secret
        ++ text "v1"
        ++ (10 ∷ text "900")
        ++ (10 ∷ nonce)
        ++ (10 ∷ text "i1")
        ++ (10 ∷ text "b"));
    timestamp = some (text "900");
    version = some (text "v1");
  };
  now = now;
  replay_window = none;
}

abbrev first_request : Delivery
first_request = request (text "n1") 1000

abbrev verified : Verified
verified = record { key_id = text "k1"; idempotency_key = text "i1" }

abbrev used : ReplayStore
used = (text "k1:n1", 1200) ∷ []

accepts : verify_partner_webhook digests keys first_request [] ≡ (ok verified, used)
unfolding verify_partner_webhook failures consume_once live matches_id matches_id_up_to is_timestamp
    decimal lookup insert text_eq
accepts = refl

abbrev calls : List Call
calls = (keys, request (text "n2") 1100) ∷ []

replay_refused_example :
    is_accepted
      (verify_partner_webhook digests keys (request (text "n1") 1150) (run digests calls used)).0
    ≡ false
unfolding decimal
replay_refused_example =
    replay_refused digests keys keys first_request (request (text "n1") 1150) verified [] used calls
      accepts refl (omega arith, tt) (omega arith)

replayed_at_window_end_example :
    is_accepted (verify_partner_webhook digests keys (at_end first_request) used).0 ≡ true
replayed_at_window_end_example =
    replayed_at_window_end digests keys first_request verified [] used accepts

abbrev envelope : Json
envelope = object (
    field (text "schemaVersion") (string (text "airlock.partner-webhook.v1")) (
      field (text "eventId") (string (text "0a1b2c3d-0000-4000-8000-0123456789ab")) (
        field (text "eventType") (string (text "authorization.confirmed")) (
          field (text "occurredAt") (string (text "2024-02-29T10:20:30.000Z")) (
            field (text "issuerId") (string (text "issuer")) (
              field (text "processorId") (string (text "processor")) (
                field (text "correlationId") (string (text "c1")) (
                  field (text "aggregateId") (string (text "a1")) (
                    field (text "payload")
                      (object (
                        field (text "authorizationId") (string (text "a1")) (
                          field (text "confirmedAt") (string (text "2024-02-29T10:20:29.999Z"))
                            no_fields)))
                      no_fields)))))))))

abbrev parse : List ℕ → Option Json
parse body = some envelope

-- The caller counts what it applies.
abbrev count : Json → Exec PartnerError ℕ (Unit {0})
count j n = (ok tt, suc n)

abbrev idle : Receiver ℕ
idle = record { replay = []; entries = []; world = 0 }

abbrev receipt : PartnerReceipt
receipt = record {
  status = 202;
  code = accepted;
  event_id = text "0a1b2c3d-0000-4000-8000-0123456789ab";
}

abbrev served : Receiver ℕ
served = (receive_partner_webhook digests parse count keys first_request idle).1

receives :
    receive_partner_webhook digests parse count keys first_request idle ≡ (ok receipt, served)
unfolding receive_partner_webhook receive_verified receive_parsed run_once partner_envelope_failure
    is_canonical_time verify_partner_webhook failures consume_once live matches_id matches_id_up_to
    is_timestamp decimal lookup insert text_eq
receives = refl

-- The same key under a new nonce, after a request without effect.
received_once_example :
    let u = run_receiver digests parse count calls served in
    let answer = receive_partner_webhook digests parse count keys (request (text "n3") 1150) u in
    (answer.1.world ≡ u.world) × IsRepeat receipt answer.0
received_once_example =
    received_once digests parse count keys keys first_request (request (text "n3") 1150) receipt
      idle served calls receives refl

abbrev event_id : Text
event_id = text "e1"

abbrev waiting : OutboxEvent
waiting = new_event event_id (text "i1") (text "t") (text "a1") (text "{}") 5000

abbrev options : Options
options = record {
  worker_id = text "w";
  lease_ms = none;
  batch_size = none;
  retry_delay_ms = none;
  request_timeout_ms = none;
  maximum_attempts = none;
  circuit_failure_threshold = none;
  circuit_cooldown_ms = none;
}

abbrev encoding : Encoding
encoding = record {
  parse_payload = λ t. envelope;
  encode = λ j. text "b";
  print = λ seconds. text "900";
}

-- The partner answers with the status 200.
abbrev attempt : OutboxEvent → Attempt
attempt e = record {
  before_send = 6100;
  nonce = text "n1";
  response = ok 200;
  completed = 6200;
  failed_at = 6300;
  sink_error = none;
  later_sink_error = none;
}

abbrev idle_dispatcher : Dispatcher OutboxTable
idle_dispatcher = record {
  source = (event_id, waiting) ∷ [];
  consecutive_failures = 0;
  circuit_open_until = 0;
  dead_letters = [];
}

abbrev signing_key : PartnerSigningKey
signing_key = record { key_id = text "k1"; secret = secret }

abbrev finished : Dispatcher OutboxTable
finished =
    (dispatch_once outbox_source options encoding digests signing_key attempt 6000
      idle_dispatcher).1

abbrev delivered_event : OutboxEvent
delivered_event = delivered 6200 (claimed (text "w") 36000 waiting)

event_waits : lookup event_id idle_dispatcher.source ≡ some waiting
unfolding lookup text_eq
event_waits = refl

event_delivered : lookup event_id finished.source ≡ some delivered_event
unfolding dispatch_once dispatch_all dispatch_event recover try_event send_event settle
    acknowledge_delivery ask is_policy claim_outbox claim_selected claim_rows candidates iso_ltb
    take sort place text_le acknowledge_outbox update_row sign_partner_webhook
    partner_envelope_failure is_canonical_time matches_id matches_id_up_to decimal lookup insert
    text_eq ◌>>=◌
event_delivered = refl

acknowledged_after_example :
    ((e : OutboxEvent) × (e.event_id ≡ event_id) × (is_success (attempt e).response ≡ true))
    ⊎ (is_buried event_id finished.dead_letters ≡ true)
acknowledged_after_example =
    acknowledged_after attempt event_id options encoding digests signing_key 6000 waiting
      delivered_event idle_dispatcher event_waits refl event_delivered
      (λ p. absurd (ground (arith, p)))
