-- ===== src/Protocol/Binding.antt =====
-- packages/protocol/canonical.ts: what a canonical form says of its binding.
use contactless_airlock_lab.Prelude.{
  ◌≡◌, Bool, true, if◌then◌else◌, Option, none, some, List, [], ◌∷◌, arith, ok, discrete_eq,
  discrete_eq_iff, any, refl, sym, Text, ℕ, ◌⊎◌, ◌∙◌,
}
use contactless_airlock_lab.Protocol.{
  ChallengeBinding, Field, Purpose, provision_payment_token, confirm_transaction,
}
use contactless_airlock_lab.Protocol.Canonical.{
  Fields, FieldValue, string, number, timestamp, optional, purpose_text, order, collect,
  ordered_fields, canonicalize_binding, validate_binding, field_value,
}

Field-discrete : Discrete Field
Field-discrete = hlevel

-- The value that a canonical form gives a field.
find : Field → Fields → Option FieldValue
find key [] = none
find key ((j, value) ∷ rest) =
    if discrete_eq Field-discrete j key then some value else find key rest

abbrev includes : Field → List Field → Bool
includes key = any (λ j. discrete_eq Field-discrete j key)

find-collect :
    (b : ChallengeBinding) (key : Field) (keys : List Field)
    → find key (collect b keys) ≡ (if includes key keys then field_value b key else none)
unfolding find collect
find-collect b key [] = refl
find-collect b key (j ∷ keys) =
    ground (arith, find-collect b key keys, discrete_eq_iff Field-discrete j key)

-- ORDER has every field.
order_complete : (key : Field) → includes key order ≡ true
unfolding Field-discrete
order_complete Field.protocol_version = refl
order_complete _ = refl

find-ordered_fields :
    (b : ChallengeBinding) (key : Field) → find key (ordered_fields b) ≡ field_value b key
unfolding ordered_fields
find-ordered_fields b key = find-collect b key order ∙ rw (order_complete key)

same_values :
    (a b : ChallengeBinding) (key : Field)
    → ordered_fields a ≡ ordered_fields b
    → field_value a key ≡ field_value b key
same_values a b key h = cc (find-ordered_fields a key, find-ordered_fields b key)

canonicalize-valid :
    (b : ChallengeBinding) {x : Fields}
    → canonicalize_binding b ≡ ok x
    → (validate_binding b ≡ none) × (x ≡ ordered_fields b)
unfolding canonicalize_binding
canonicalize-valid b h = ground arith

supported :
    (b : ChallengeBinding)
    → validate_binding b ≡ none
    → (b.purpose ≡ provision_payment_token) ⊎ (b.purpose ≡ confirm_transaction)
unfolding validate_binding
supported b h = ground arith

same_purpose :
    (p q : Purpose)
    → (p ≡ provision_payment_token) ⊎ (p ≡ confirm_transaction)
    → (q ≡ provision_payment_token) ⊎ (q ≡ confirm_transaction)
    → purpose_text p ≡ purpose_text q
    → p ≡ q
same_purpose p q hp hq e = ground arith

optional_string : (v w : Option Text) → optional string v ≡ optional string w → v ≡ w
optional_string v w h = ground arith

optional_number : (v w : Option ℕ) → optional number v ≡ optional number w → v ≡ w
optional_number v w h = ground arith

module _ (a b : ChallengeBinding) (same : ordered_fields a ≡ ordered_fields b) where
  abbrev at : (key : Field) → field_value a key ≡ field_value b key
  at key = same_values a b key same

  same_text :
      {s t : Text} (key : Field)
      → field_value a key ≡ some (string s)
      → field_value b key ≡ some (string t)
      → s ≡ t
  same_text key p q = cc (at key)

  same_instant :
      {s t : ℕ} (key : Field)
      → field_value a key ≡ some (timestamp s)
      → field_value b key ≡ some (timestamp t)
      → s ≡ t
  same_instant key p q = cc (at key)

same_binding :
    (a b : ChallengeBinding)
    → validate_binding a ≡ none
    → validate_binding b ≡ none
    → ordered_fields a ≡ ordered_fields b
    → a ≡ b
unfolding field_value
same_binding a b va vb same = λ i. record {
  protocol_version = same_text a b same Field.protocol_version refl refl i;
  purpose =
      same_purpose a.purpose b.purpose (supported a va) (supported b vb)
        (same_text a b same Field.purpose refl refl) i;
  challenge_id = same_text a b same Field.challenge_id refl refl i;
  subject_id = same_text a b same Field.subject_id refl refl i;
  account_id = same_text a b same Field.account_id refl refl i;
  payment_token_id = same_text a b same Field.payment_token_id refl refl i;
  trusted_device_id = same_text a b same Field.trusted_device_id refl refl i;
  transaction_id = optional_string _ _ (same_values a b Field.transaction_id same) i;
  merchant_id = optional_string _ _ (same_values a b Field.merchant_id same) i;
  amount_minor = optional_number _ _ (same_values a b Field.amount_minor same) i;
  currency = optional_string _ _ (same_values a b Field.currency same) i;
  issued_at = same_instant a b same Field.issued_at refl refl i;
  expires_at = same_instant a b same Field.expires_at refl refl i;
  audience = same_text a b same Field.audience refl refl i;
}

-- Two bindings that canonicalize to one form are equal in every field.
pub canonicalize-injective :
    (a b : ChallengeBinding) {x : Fields}
    → canonicalize_binding a ≡ ok x
    → canonicalize_binding b ≡ ok x
    → a ≡ b
canonicalize-injective a b ha hb =
    same_binding a b (canonicalize-valid a ha).0 (canonicalize-valid b hb).0
      (sym (canonicalize-valid a ha).1 ∙ (canonicalize-valid b hb).1)
