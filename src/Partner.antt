-- ===== src/Partner.antt =====
-- packages/partner-transport/signing.ts: the signatures of webhooks and the store against replays. Bodies
-- and secrets are lists of bytes, headers those after `toLowerCase`; SHA-256, HMAC and UTF-8 are
-- node:crypto's and node:buffer's. Seconds are below 2^53, where `Number` is exact.
pub mod Replay
pub mod Window
pub mod Json
pub mod Forms
pub mod Contract
pub mod Receiver
pub mod Receipts
pub mod Dispatcher
use contactless_airlock_lab.Prelude.{
  ◌≡◌, ℕ, ◌+◌, ◌-◌, ◌*◌, Bool, true, false, not, ◌&&◌, ◌||◌, Option, none, some, List, [], ◌∷◌,
  ◌++◌, Text, text, ltb, leb, nat_eq, length, all, matches_id, ◌==◌, text_Eq, get_or, if◌then◌else◌,
  Map, insert, has, Result, ok, err, first_failure,
}

pub data PartnerError : Type 0 where
  payload_too_large : PartnerError
  unsupported_version : PartnerError
  invalid_key_id : PartnerError
  invalid_nonce : PartnerError
  invalid_idempotency_key : PartnerError
  invalid_timestamp : PartnerError
  invalid_replay_window : PartnerError
  outside_replay_window : PartnerError
  unknown_signing_key : PartnerError
  short_key : PartnerError
  invalid_signature : PartnerError
  replay_detected : PartnerError
  invalid_signed_request : PartnerError
  invalid_json : PartnerError
  invalid_envelope : Text → PartnerError
  key_reused : PartnerError
  work_failed : PartnerError

-- PartnerSignatureHeaders, where each may be absent
pub record Headers : Type 0 where
  pub idempotency_key : Option Text
  pub key_id : Option Text
  pub nonce : Option Text
  pub signature : Option Text
  pub timestamp : Option Text
  pub version : Option Text

pub record PartnerSigningKey : Type 0 where
  pub key_id : Text
  pub secret : List ℕ

pub record Digests : Type 0 where
  pub sha256_hex : List ℕ → Text
  pub hmac_hex : List ℕ → Text → Text
  pub utf8 : Text → List ℕ

abbrev pub signature_version : Text
signature_version = text "v1"

abbrev pub max_webhook_bytes : ℕ
max_webhook_bytes = 1048576

-- The entries of MemoryReplayStore: instants of expiry.
abbrev pub ReplayStore : Type 0
ReplayStore = Map Text ℕ

unfoldable pub live : ℕ → ReplayStore → ReplayStore
live now [] = []
live now ((key, expiry) ∷ rest) =
    let more = live now rest in if leb expiry now then more else (key, expiry) ∷ more

unfoldable pub consume_once : Text → ℕ → ℕ → ReplayStore → Bool × ReplayStore
unfolding live
consume_once key expires_at now store =
    let entries = live now store in
    if has key entries then (false, entries) else (true, insert key expires_at entries)

-- assertKey's second test
abbrev pub is_secret : List ℕ → Bool
is_secret secret = leb 32 (length secret)

abbrev newline : Text
newline = 10 ∷ []

abbrev pub canonical_request : Digests → Text → Text → Text → List ℕ → Text
canonical_request d timestamp nonce idempotency_key body =
    signature_version
    ++ newline
    ++ timestamp
    ++ newline
    ++ nonce
    ++ newline
    ++ idempotency_key
    ++ newline
    ++ d.sha256_hex body

abbrev pub signature_of : Digests → List ℕ → Text → Text → Text → List ℕ → Text
signature_of d secret timestamp nonce idempotency_key body =
    text "v1=" ++ d.hmac_hex secret (canonical_request d timestamp nonce idempotency_key body)

abbrev is_digit : ℕ → Bool
is_digit c = leb b'0' c && leb c b'9'

-- /^(0|[1-9][0-9]{0,15})$/
unfoldable pub is_timestamp : Text → Bool
is_timestamp [] = false
is_timestamp (c ∷ rest) =
    (c ∷ rest) == text "0"
    || (leb b'1' c && leb c b'9' && all is_digit rest && leb (length rest) 15)

-- Number(timestamp), after the digits read before
unfoldable pub decimal : ℕ → Text → ℕ
decimal before [] = before
decimal before (c ∷ rest) = decimal (before * 10 + (c - b'0')) rest

-- Math.abs(a - b)
abbrev pub distance : ℕ → ℕ → ℕ
distance a b = (a - b) + (b - a)

-- What a verification reads: the body, the headers, the instant and the window, if it is given.
pub record Delivery : Type 0 where
  pub body : List ℕ
  pub headers : Headers
  pub now : ℕ
  pub replay_window : Option ℕ

abbrev pub header : Option Text → Text
header h = get_or [] h

abbrev pub sent_at : Delivery → ℕ
sent_at r = decimal 0 (header r.headers.timestamp)

abbrev pub window : Delivery → ℕ
window r = get_or 300 r.replay_window

abbrev is_version : Option Text → Bool
is_version none = false
is_version (some v) = v == signature_version

abbrev is_known : Option (List ℕ) → Bool
is_known none = false
is_known (some secret) = true

abbrev pub is_signed_by : Digests → Delivery → Option (List ℕ) → Bool
is_signed_by d r none = false
is_signed_by d r (some secret) =
    let h = r.headers in
    d.utf8 (header h.signature)
    == d.utf8 (
        signature_of d secret (header h.timestamp) (header h.nonce) (header h.idempotency_key)
          r.body)

-- The guards of `verifyPartnerWebhook` before the replay store, each with its error.
unfoldable pub failures : Digests → (Text → Option (List ℕ)) → Delivery → List (Bool × PartnerError)
failures d resolve_key r =
    let h = r.headers in
    let secret = resolve_key (header h.key_id) in
    (ltb max_webhook_bytes (length r.body), payload_too_large)
    ∷ (not (is_version h.version), unsupported_version)
    ∷ (not (matches_id (header h.key_id)), invalid_key_id)
    ∷ (not (matches_id (header h.nonce)), invalid_nonce)
    ∷ (not (matches_id (header h.idempotency_key)), invalid_idempotency_key)
    ∷ (not (is_timestamp (header h.timestamp)), invalid_timestamp)
    ∷ (not (leb 1 (window r) && leb (window r) 3600), invalid_replay_window)
    ∷ (ltb (window r) (distance r.now (sent_at r)), outside_replay_window)
    ∷ (not (is_known secret), unknown_signing_key)
    ∷ (not (is_secret (get_or [] secret)), short_key)
    ∷ (not (is_signed_by d r secret), invalid_signature)
    ∷ []

abbrev pub replay_key : Headers → Text
replay_key h = header h.key_id ++ text ":" ++ header h.nonce

pub record Verified : Type 0 where
  pub key_id : Text
  pub idempotency_key : Text

abbrev pub if_consumed : Headers → Bool × ReplayStore → Result PartnerError Verified × ReplayStore
if_consumed h (true, store) =
    (ok (record { key_id = header h.key_id; idempotency_key = header h.idempotency_key }), store)
if_consumed h (false, store) = (err replay_detected, store)

abbrev pub unless_failed :
    {A : Type 0}
    → Option PartnerError
    → ReplayStore
    → Result PartnerError A × ReplayStore
    → Result PartnerError A × ReplayStore
unless_failed none store next = next
unless_failed (some e) store next = (err e, store)

unfoldable pub verify_partner_webhook :
    Digests
    → (Text → Option (List ℕ))
    → Delivery
    → ReplayStore
    → Result PartnerError Verified × ReplayStore
verify_partner_webhook d resolve_key r store =
    unless_failed (first_failure (failures d resolve_key r)) store (
      if_consumed r.headers
        (consume_once (replay_key r.headers) (sent_at r + window r) r.now store))

-- `signPartnerWebhook`; `print` is String of the seconds.
unfoldable pub sign_partner_webhook :
    Digests
    → (ℕ → Text)
    → List ℕ
    → Text
    → Text
    → ℕ
    → PartnerSigningKey
    → Result PartnerError Headers
sign_partner_webhook d print body idempotency_key nonce seconds key =
    elim (first_failure (
      (not (matches_id key.key_id), invalid_key_id)
      ∷ (not (is_secret key.secret), short_key)
      ∷ (not (matches_id idempotency_key), invalid_idempotency_key)
      ∷ (not (matches_id nonce), invalid_nonce)
      ∷ (ltb max_webhook_bytes (length body), invalid_signed_request)
      ∷ [])) [
        | some e ↦ err e
        | none ↦ ok (record {
          idempotency_key = some idempotency_key;
          key_id = some key.key_id;
          nonce = some nonce;
          signature = some (signature_of d key.secret (print seconds) nonce idempotency_key body);
          timestamp = some (print seconds);
          version = some signature_version;
        })
      ]
