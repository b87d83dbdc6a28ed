-- ===== src/Protocol/Canonical.antt =====
-- packages/protocol/canonical.ts. A binding is a record, so it has no unknown keys. The canonical
-- form is the ordered list of fields and values that the program hands to `JSON.stringify`; two
-- such lists are the same exactly when their JSON bytes are.
use native.Mathlib.Decide.{ℕ_discrete}
use contactless_airlock_lab.Prelude.{
  ℕ, Bool, true, false, not, ◌&&◌, ◌||◌, Option, none, some, List, [], ◌∷◌, Text, text, is_empty,
  ltb, leb, ◌==◌, text_Eq, any, if◌then◌else◌, first_failure, discrete_eq, Result, ok, err, get_or,
}
use contactless_airlock_lab.Protocol.{
  Purpose, provision_payment_token, confirm_transaction, unsupported, ChallengeBinding, Field,
  Error, invalid_challenge_field, unsupported_protocol_version, invalid_challenge_audience,
  invalid_issued_at, invalid_expires_at, expiry_must_follow_issuance,
  transaction_challenge_requires, requires_positive_amount, unsupported_currency,
  transaction_only_fields, unsupported_purpose,
}

pub data FieldValue : Type 0 where
  string : Text → FieldValue
  number : ℕ → FieldValue
  timestamp : ℕ → FieldValue

abbrev pub Fields : Type 0
Fields = List (Field × FieldValue)

-- "airlock.v1", "airlock-issuer"
abbrev pub airlock_v1 : Text
airlock_v1 = text "airlock.v1"

abbrev pub airlock_issuer : Text
airlock_issuer = text "airlock-issuer"

-- Number.MAX_SAFE_INTEGER
abbrev pub max_safe_integer : ℕ
max_safe_integer = 9007199254740991

-- The first instant past the year 9999, whose ISO text is no canonical timestamp.
abbrev pub past_canonical : ℕ
past_canonical = 253402300800000

abbrev is_high_surrogate : ℕ → Bool
is_high_surrogate c = leb 0xd800 c && leb c 0xdbff

abbrev is_low_surrogate : ℕ → Bool
is_low_surrogate c = leb 0xdc00 c && leb c 0xdfff

contains_unpaired_surrogate : Text → Bool
contains_unpaired_surrogate [] = false
contains_unpaired_surrogate (c ∷ []) = is_high_surrogate c || is_low_surrogate c
contains_unpaired_surrogate (c ∷ d ∷ rest) =
    let past_pair = contains_unpaired_surrogate rest in
    let past_unit = contains_unpaired_surrogate (d ∷ rest) in
    if is_high_surrogate c
    then (if is_low_surrogate d then past_pair else true)
    else (if is_low_surrogate c then true else past_unit)

-- `value.length === 0 || containsUnpairedSurrogate(value)`
pub is_invalid_text : Text → Bool
unfolding contains_unpaired_surrogate
is_invalid_text value = is_empty value || contains_unpaired_surrogate value

abbrev is_invalid_option : Option Text → Bool
is_invalid_option none = true
is_invalid_option (some value) = is_invalid_text value

abbrev is_some {ℓ} : {A : Type ℓ} → Option A → Bool
is_some none = false
is_some (some a) = true

abbrev pub purpose_text : Purpose → Text
purpose_text provision_payment_token = text "provision-payment-token"
purpose_text confirm_transaction = text "confirm-transaction"
purpose_text (unsupported name) = name

abbrev pub is_positive_safe : ℕ → Bool
is_positive_safe n = ltb 0 n && leb n max_safe_integer

abbrev currencies : List Text
currencies = text "USD" ∷ text "EUR" ∷ text "GBP" ∷ text "CAD" ∷ text "AUD" ∷ []

-- The tests that depend on the purpose.
abbrev pub validate_purpose : Purpose → ChallengeBinding → Option Error
validate_purpose confirm_transaction b = first_failure (
    (is_invalid_option b.transaction_id, transaction_challenge_requires Field.transaction_id)
    ∷ (is_invalid_option b.merchant_id, transaction_challenge_requires Field.merchant_id)
    ∷ (is_invalid_option b.currency, transaction_challenge_requires Field.currency)
    ∷ (not (is_positive_safe (get_or 0 b.amount_minor)), requires_positive_amount)
    ∷ (not (any (λ c. c == get_or [] b.currency) currencies), unsupported_currency)
    ∷ [])
validate_purpose provision_payment_token b = first_failure (
    (
      is_some b.transaction_id
          || is_some b.merchant_id
          || is_some b.amount_minor
          || is_some b.currency,
      transaction_only_fields,
    )
    ∷ [])
validate_purpose (unsupported name) b = some unsupported_purpose

abbrev pub or_else {ℓ} : {A : Type ℓ} → Option A → Option A → Option A
or_else none other = other
or_else (some a) other = some a

-- The tests of a binding of any purpose, in their order.
unfoldable pub common_tests : ChallengeBinding → List (Bool × Error)
unfolding is_invalid_text
common_tests b =
    (is_invalid_text b.protocol_version, invalid_challenge_field Field.protocol_version)
    ∷ (is_invalid_text (purpose_text b.purpose), invalid_challenge_field Field.purpose)
    ∷ (is_invalid_text b.challenge_id, invalid_challenge_field Field.challenge_id)
    ∷ (is_invalid_text b.subject_id, invalid_challenge_field Field.subject_id)
    ∷ (is_invalid_text b.account_id, invalid_challenge_field Field.account_id)
    ∷ (is_invalid_text b.payment_token_id, invalid_challenge_field Field.payment_token_id)
    ∷ (is_invalid_text b.trusted_device_id, invalid_challenge_field Field.trusted_device_id)
    ∷ (is_invalid_text b.audience, invalid_challenge_field Field.audience)
    ∷ (not (b.protocol_version == airlock_v1), unsupported_protocol_version)
    ∷ (not (b.audience == airlock_issuer), invalid_challenge_audience)
    ∷ (leb past_canonical b.issued_at, invalid_issued_at)
    ∷ (leb past_canonical b.expires_at, invalid_expires_at)
    ∷ (leb b.expires_at b.issued_at, expiry_must_follow_issuance)
    ∷ []

-- validateBinding: the error that it throws, if any.
unfoldable pub validate_binding : ChallengeBinding → Option Error
unfolding common_tests
validate_binding b = or_else (first_failure (common_tests b)) (validate_purpose b.purpose b)

abbrev pub optional : {A : Type 0} → (A → FieldValue) → Option A → Option FieldValue
optional f none = none
optional f (some v) = some (f v)

-- `binding[key]`
unfoldable pub field_value : ChallengeBinding → Field → Option FieldValue
field_value b Field.protocol_version = some (string b.protocol_version)
field_value b Field.purpose = some (string (purpose_text b.purpose))
field_value b Field.challenge_id = some (string b.challenge_id)
field_value b Field.subject_id = some (string b.subject_id)
field_value b Field.account_id = some (string b.account_id)
field_value b Field.payment_token_id = some (string b.payment_token_id)
field_value b Field.trusted_device_id = some (string b.trusted_device_id)
field_value b Field.transaction_id = optional string b.transaction_id
field_value b Field.merchant_id = optional string b.merchant_id
field_value b Field.amount_minor = optional number b.amount_minor
field_value b Field.currency = optional string b.currency
field_value b Field.issued_at = some (timestamp b.issued_at)
field_value b Field.expires_at = some (timestamp b.expires_at)
field_value b Field.audience = some (string b.audience)

-- ORDER
abbrev pub order : List Field
order =
    Field.protocol_version ∷ Field.purpose ∷ Field.challenge_id ∷ Field.subject_id
    ∷ Field.account_id ∷ Field.payment_token_id ∷ Field.trusted_device_id ∷ Field.transaction_id
    ∷ Field.merchant_id ∷ Field.amount_minor ∷ Field.currency ∷ Field.issued_at ∷ Field.expires_at
    ∷ Field.audience ∷ []

-- The loop that builds `ordered`: a field that is undefined is left out.
unfoldable pub collect : ChallengeBinding → List Field → Fields
collect b [] = []
collect b (key ∷ keys) = elim (field_value b key) [
  | none ↦ collect b keys
  | some value ↦ (key, value) ∷ collect b keys
]

unfoldable pub ordered_fields : ChallengeBinding → Fields
unfolding collect field_value
ordered_fields b = collect b order

unfoldable pub canonicalize_binding : ChallengeBinding → Result Error Fields
canonicalize_binding b = elim (validate_binding b) [ none ↦ ok (ordered_fields b) | some e ↦ err e ]

-- The comparison of two canonical forms: equal lengths and `timingSafeEqual`.
unfoldable pub Fields-discrete : Discrete Fields
Fields-discrete = hlevel ℕ_discrete

abbrev pub fields_eq : Fields → Fields → Bool
fields_eq = discrete_eq Fields-discrete
