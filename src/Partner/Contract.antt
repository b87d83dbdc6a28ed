-- ===== src/Partner/Contract.antt =====
-- packages/partner-transport/contract.ts: the tests of a webhook's envelope. An error is its message.
use contactless_airlock_lab.Prelude.{
  Bool, true, false, not, ◌&&◌, Option, none, some, List, [], ◌∷◌, ◌++◌, Text, text, leb, nat_eq,
  length, all, any, matches_id, ◌==◌, text_Eq, if◌then◌else◌, first_failure,
}
use contactless_airlock_lab.Partner.Json.{
  Json, integer, string, Fields, get_field, field_names, fields_of, string_or_empty,
}
use contactless_airlock_lab.Partner.Forms.{is_uuid, is_canonical_time}

-- A string field that passes a test.
abbrev is_string : (Text → Bool) → Option Json → Bool
is_string test none = false
is_string test (some j) = elim j [ string s ↦ test s | _ ↦ false ]

abbrev is_positive : Option Json → Bool
is_positive none = false
is_positive (some j) = elim j [ integer n ↦ leb 1 n | _ ↦ false ]

abbrev one_of : List Text → Text → Bool
one_of options s = any (λ o. s == o) options

-- assertExactObject, after its first test
abbrev has_exactly : List Text → Fields → Bool
has_exactly required fields =
    nat_eq (length (field_names fields)) (length required)
    && all (λ key. any (λ k. k == key) (field_names fields)) required

abbrev provisional_failures : Fields → List (Bool × Text)
provisional_failures p =
    (
      not (
          has_exactly
            (text "authorizationId"
              ∷ text "tokenReference"
              ∷ text "merchantId"
              ∷ text "amountMinor"
              ∷ text "currency"
              ∷ text "confirmationExpiresAt"
              ∷ [])
            p),
      text "invalid provisional payload fields",
    )
    ∷ (
      not (is_string matches_id (get_field (text "authorizationId") p)),
      text "invalid provisional authorizationId",
    )
    ∷ (
      not (is_string matches_id (get_field (text "tokenReference") p)),
      text "invalid provisional tokenReference",
    )
    ∷ (
      not (is_string matches_id (get_field (text "merchantId") p)),
      text "invalid provisional merchantId",
    )
    ∷ (not (is_positive (get_field (text "amountMinor") p)), text "invalid provisional amountMinor")
    ∷ (
      not (
          is_string (one_of (text "USD" ∷ text "EUR" ∷ text "GBP" ∷ text "CAD" ∷ text "AUD" ∷ []))
            (get_field (text "currency") p)),
      text "invalid provisional currency",
    )
    ∷ (
      not (is_string is_canonical_time (get_field (text "confirmationExpiresAt") p)),
      text "invalid provisional confirmationExpiresAt",
    )
    ∷ []

abbrev confirmed_failures : Fields → List (Bool × Text)
confirmed_failures p =
    (
      not (has_exactly (text "authorizationId" ∷ text "confirmedAt" ∷ []) p),
      text "invalid confirmation payload fields",
    )
    ∷ (
      not (is_string matches_id (get_field (text "authorizationId") p)),
      text "invalid confirmation authorizationId",
    )
    ∷ (
      not (is_string is_canonical_time (get_field (text "confirmedAt") p)),
      text "invalid confirmation confirmedAt",
    )
    ∷ []

abbrev reversal_failures : Fields → List (Bool × Text)
reversal_failures p =
    (
      not (has_exactly (text "authorizationId" ∷ text "reason" ∷ text "requestedAt" ∷ []) p),
      text "invalid reversal payload fields",
    )
    ∷ (
      not (is_string matches_id (get_field (text "authorizationId") p)),
      text "invalid reversal authorizationId",
    )
    ∷ (
      not (
          is_string
            (one_of
              (text "confirmation_timeout" ∷ text "holder_declined" ∷ text "risk_declined" ∷ []))
            (get_field (text "reason") p)),
      text "invalid reversal reason",
    )
    ∷ (
      not (is_string is_canonical_time (get_field (text "requestedAt") p)),
      text "invalid reversal requestedAt",
    )
    ∷ []

abbrev exception_failures : Fields → List (Bool × Text)
exception_failures p =
    (
      not (
          has_exactly (text "authorizationId" ∷ text "clearingReference" ∷ text "detectedAt" ∷ [])
            p),
      text "invalid clearing exception payload fields",
    )
    ∷ (
      not (is_string matches_id (get_field (text "authorizationId") p)),
      text "invalid exception authorizationId",
    )
    ∷ (
      not (is_string matches_id (get_field (text "clearingReference") p)),
      text "invalid exception clearingReference",
    )
    ∷ (
      not (is_string is_canonical_time (get_field (text "detectedAt") p)),
      text "invalid exception detectedAt",
    )
    ∷ []

abbrev partner_event_types : List Text
partner_event_types =
    text "authorization.provisional"
    ∷ text "authorization.confirmed"
    ∷ text "authorization.reversal_requested"
    ∷ text "authorization.clearing_exception"
    ∷ []

-- assertPayload, of a payload that is an object or not
abbrev payload_failures : Text → Option Fields → List (Bool × Text)
payload_failures event_type none =
    (
      true,
      if event_type == text "authorization.provisional"
          then text "invalid provisional payload"
          else (if event_type == text "authorization.confirmed"
              then text "invalid confirmation payload"
              else (if event_type == text "authorization.reversal_requested"
                  then text "invalid reversal payload"
                  else text "invalid clearing exception payload")),
    )
    ∷ []
payload_failures event_type (some p) =
    if event_type == text "authorization.provisional"
    then provisional_failures p
    else (if event_type == text "authorization.confirmed"
        then confirmed_failures p
        else (if event_type == text "authorization.reversal_requested"
            then reversal_failures p
            else exception_failures p))

abbrev envelope_fields : List Text
envelope_fields =
    text "schemaVersion"
    ∷ text "eventId"
    ∷ text "eventType"
    ∷ text "occurredAt"
    ∷ text "issuerId"
    ∷ text "processorId"
    ∷ text "correlationId"
    ∷ text "aggregateId"
    ∷ text "payload"
    ∷ []

abbrev authorization_id : Option Fields → Text
authorization_id none = []
authorization_id (some p) = string_or_empty (get_field (text "authorizationId") p)

abbrev fields_failures : Fields → List (Bool × Text)
fields_failures e =
    (
      not (all (λ k. any (λ j. j == k) envelope_fields) (field_names e)),
      text "partner envelope contains unknown fields",
    )
    ∷ (
      not (
          is_string (λ s. s == text "airlock.partner-webhook.v1")
            (get_field (text "schemaVersion") e)),
      text "unsupported partner envelope version",
    )
    ∷ (not (is_string is_uuid (get_field (text "eventId") e)), text "invalid partner event id")
    ∷ (
      not (is_string (one_of partner_event_types) (get_field (text "eventType") e)),
      text "invalid partner event type",
    )
    ∷ (
      not (is_string is_canonical_time (get_field (text "occurredAt") e)),
      text "invalid partner event time",
    )
    ∷ (not (is_string matches_id (get_field (text "issuerId") e)), text "invalid partner issuerId")
    ∷ (
      not (is_string matches_id (get_field (text "processorId") e)),
      text "invalid partner processorId",
    )
    ∷ (
      not (is_string matches_id (get_field (text "correlationId") e)),
      text "invalid partner correlationId",
    )
    ∷ (
      not (is_string matches_id (get_field (text "aggregateId") e)),
      text "invalid partner aggregateId",
    )
    ∷ []

abbrev envelope_failures : Fields → List (Bool × Text)
envelope_failures e =
    let payload = fields_of (get_field (text "payload") e) in
    fields_failures e
    ++ payload_failures (string_or_empty (get_field (text "eventType") e)) payload
    ++ (
      not (authorization_id payload == string_or_empty (get_field (text "aggregateId") e)),
      text "partner aggregate does not match authorization id",
    )
      ∷ []

-- assertPartnerEnvelope: the message of the error that it throws, if it throws one.
unfoldable pub partner_envelope_failure : Json → Option Text
unfolding is_canonical_time
partner_envelope_failure j = elim (fields_of (some j)) [
  | none ↦ some (text "partner envelope must be an object")
  | some e ↦ first_failure (envelope_failures e)
]
