-- ===== src/Partner/Receiver.antt =====
-- packages/partner-transport/receiver.ts: receivePartnerWebhook, with MemoryPartnerIdempotencyStore. The
-- caller's `apply` is an action on a state of its own; JSON.parse of the body's UTF-8 is `parse`.
use contactless_airlock_lab.Prelude.{
  ℕ, Option, none, some, List, [], ◌++◌, Text, text, ◌==◌, text_Eq, if◌then◌else◌, Map, lookup,
  insert, Result, ok, err, Exec,
}
use contactless_airlock_lab.Partner.{
  PartnerError, invalid_json, invalid_envelope, key_reused, Digests, Delivery, ReplayStore,
  Verified, verify_partner_webhook,
}
use contactless_airlock_lab.Partner.Json.{Json, fields_of, get_field, string_or_empty}
use contactless_airlock_lab.Partner.Contract.{partner_envelope_failure}

pub data ReceiptCode : Type 0 where
  accepted : ReceiptCode
  duplicate : ReceiptCode

pub record PartnerReceipt : Type 0 where
  pub status : ℕ
  pub code : ReceiptCode
  pub event_id : Text

-- An entry of MemoryPartnerIdempotencyStore
pub record Entry : Type 0 where
  pub request_hash : Text
  pub value : PartnerReceipt

pub record Receiver (W : Type 0) : Type 0 where
  pub replay : ReplayStore
  pub entries : Map Text Entry
  pub world : W

abbrev pub event_id_of : Json → Text
event_id_of j = elim (fields_of (some j)) [
  | none ↦ []
  | some e ↦ string_or_empty (get_field (text "eventId") e)
]

-- `${verified.keyId}:${verified.idempotencyKey}`
abbrev pub entry_key : Verified → Text
entry_key v = v.key_id ++ text ":" ++ v.idempotency_key

abbrev pub new_receipt : Json → PartnerReceipt
new_receipt j = record { status = 202; code = accepted; event_id = event_id_of j }

abbrev pub Op : Type 0 → Type 0 → Type 0
Op W A = Exec PartnerError (Receiver W) A

module _ {W : Type 0} where
  -- `runOnce` with the work of the receiver, once the prior entry is read; a replay is a duplicate.
  abbrev pub replayed_entry : Text → Entry → Op W PartnerReceipt
  replayed_entry request_hash prior s =
      if prior.request_hash == request_hash
      then (ok (record prior.value { code = duplicate }), s)
      else (err key_reused, s)

  abbrev pub keep_applied :
      Text
      → Text
      → Json
      → Receiver W
      → Result PartnerError (Unit {0}) × W
      → Result PartnerError PartnerReceipt × Receiver W
  keep_applied key request_hash j s (ok u, world) = (
    ok (new_receipt j),
    record s {
      entries =
          insert key (record { request_hash = request_hash; value = new_receipt j }) s.entries;
      world = world;
    },
  )
  keep_applied key request_hash j s (err e, world) = (err e, record s { world = world })

  unfoldable pub run_once :
      (Json → Exec PartnerError W (Unit {0}))
      → Text
      → Text
      → Json
      → Option Entry
      → Op W PartnerReceipt
  run_once apply key request_hash j (some prior) s = replayed_entry request_hash prior s
  run_once apply key request_hash j none s = keep_applied key request_hash j s (apply j s.world)

  unfoldable pub receive_parsed :
      (Json → Exec PartnerError W (Unit {0})) → Text → Text → Option Json → Op W PartnerReceipt
  unfolding run_once
  receive_parsed apply key request_hash none s = (err invalid_json, s)
  receive_parsed apply key request_hash (some j) s = elim (partner_envelope_failure j) [
    | some message ↦ (err (invalid_envelope message), s)
    | none ↦ run_once apply key request_hash j (lookup key s.entries) s
  ]

  unfoldable pub receive_verified :
      Digests
      → (List ℕ → Option Json)
      → (Json → Exec PartnerError W (Unit {0}))
      → List ℕ
      → Receiver W
      → Result PartnerError Verified × ReplayStore
      → Result PartnerError PartnerReceipt × Receiver W
  unfolding receive_parsed
  receive_verified d parse apply body s (err e, replay) = (err e, record s { replay = replay })
  receive_verified d parse apply body s (ok v, replay) =
      receive_parsed apply (entry_key v) (d.sha256_hex body) (parse body)
        (record s { replay = replay })

  unfoldable pub receive_partner_webhook :
      Digests
      → (List ℕ → Option Json)
      → (Json → Exec PartnerError W (Unit {0}))
      → (Text → Option (List ℕ))
      → Delivery
      → Op W PartnerReceipt
  unfolding receive_verified
  receive_partner_webhook d parse apply resolve_key r s =
      receive_verified d parse apply r.body s (verify_partner_webhook d resolve_key r s.replay)
