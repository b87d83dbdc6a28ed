-- ===== src/Challenges.antt =====
-- packages/state-machine/challengeStore.ts: the store of one-time challenges. The 32 random bytes
-- of a new challenge id are an argument. A method returns its result with the store that it leaves.
pub mod Consumption
pub mod OneUse
pub mod Snapshots
pub mod Clocks
use contactless_airlock_lab.Prelude.{
  ℕ, ◌+◌, Bool, true, false, not, ◌&&◌, ◌||◌, Option, none, some, List, [], ◌∷◌, Text, text, ltb,
  leb, ◌==◌, text_Eq, if◌then◌else◌, Map, lookup, insert, has, values, Result, ok, err, Exec, ◌>>=◌,
  ◌>>◌, pure, raise, lift, gets, fetch, raise, modify, guard,
}
use contactless_airlock_lab.Protocol.{
  Purpose, ChallengeBinding, SignedApproval, ChallengeStatus, ChallengeRecord, created, confirmed,
  expired, cancelled, Error, invalid_ttl, unknown_challenge, challenge_already_terminal,
  binding_mismatch, challenge_expired, invalid_device_signature, cancelled_before_issuance,
  invalid_challenge_record, duplicate_challenge, missing_consumption_time, consumed_before_issuance,
  created_with_consumption_time,
}
use contactless_airlock_lab.Protocol.Canonical.{
  airlock_v1, airlock_issuer, canonicalize_binding, fields_eq, Fields-discrete,
}
use contactless_airlock_lab.Crypto.{Crypto, verify_approval}

pub record CreateChallengeInput : Type 0 where
  pub purpose : Purpose
  pub subject_id : Text
  pub account_id : Text
  pub payment_token_id : Text
  pub trusted_device_id : Text
  pub transaction_id : Option Text
  pub merchant_id : Option Text
  pub amount_minor : Option ℕ
  pub currency : Option Text
  pub ttl_ms : ℕ

-- `#records`
abbrev pub ChallengeStore : Type 0
ChallengeStore = Map Text ChallengeRecord

abbrev pub Store : Type 0 → Type 0
Store A = Exec Error ChallengeStore A

abbrev pub is_created : ChallengeStatus → Bool
is_created created = true
is_created _ = false

abbrev pub new_binding : CreateChallengeInput → Text → ℕ → ChallengeBinding
new_binding input challenge_id now = record {
  protocol_version = airlock_v1;
  purpose = input.purpose;
  challenge_id = challenge_id;
  subject_id = input.subject_id;
  account_id = input.account_id;
  payment_token_id = input.payment_token_id;
  trusted_device_id = input.trusted_device_id;
  transaction_id = input.transaction_id;
  merchant_id = input.merchant_id;
  amount_minor = input.amount_minor;
  currency = input.currency;
  issued_at = now;
  expires_at = now + input.ttl_ms;
  audience = airlock_issuer;
}

abbrev pub new_record : CreateChallengeInput → Text → ℕ → ChallengeRecord
new_record input challenge_id now = record {
  binding = new_binding input challenge_id now;
  status = created;
  consumed_at = none;
}

unfoldable pub create : CreateChallengeInput → Text → ℕ → Store ChallengeBinding
create input challenge_id now = do
  guard (leb 1000 input.ttl_ms && leb input.ttl_ms 300000) invalid_ttl
  modify (insert challenge_id (new_record input challenge_id now))
  pure (new_binding input challenge_id now)

-- The end of `consume`: `verifyApproval` threw, failed or passed.
conclude : Text → ChallengeRecord → ℕ → Bool → Store ChallengeRecord
conclude id found now signed = do
  guard signed invalid_device_signature
  let done = record found { status = confirmed; consumed_at = some now }
  modify (insert id done)
  pure done

-- From the test of the expiry on.
consume_matching :
    Crypto → SignedApproval → Text → ℕ → Text → ChallengeRecord → Store ChallengeRecord
unfolding conclude
consume_matching crypto approval key now algorithm found =
    let id = approval.binding.challenge_id in
    if leb found.binding.expires_at now
    then (do modify (insert id (record found { status = expired })); raise challenge_expired)
    else (do
      signed ← lift (verify_approval crypto approval key algorithm)
      conclude id found now signed)

unfoldable pub consume : Crypto → SignedApproval → Text → ℕ → Text → Store ChallengeRecord
unfolding consume_matching
consume crypto approval key now algorithm = do
  found ← fetch (lookup approval.binding.challenge_id) unknown_challenge
  guard (is_created found.status) challenge_already_terminal
  expected ← lift (canonicalize_binding found.binding)
  submitted ← lift (canonicalize_binding approval.binding)
  guard (fields_eq expected submitted) binding_mismatch
  consume_matching crypto approval key now algorithm found

unfoldable pub cancel : Text → ℕ → Store ChallengeRecord
cancel id now = do
  found ← fetch (lookup id) unknown_challenge
  guard (is_created found.status) challenge_already_terminal
  guard (leb found.binding.issued_at now) cancelled_before_issuance
  let done = record found { status = cancelled; consumed_at = some now }
  modify (insert id done)
  pure done

-- `get`
abbrev pub get : Text → ChallengeStore → Option ChallengeRecord
get id s = lookup id s

-- `snapshot().records`
abbrev pub snapshot : ChallengeStore → List ChallengeRecord
snapshot s = values s

abbrev is_terminal_by_use : ChallengeStatus → Bool
is_terminal_by_use confirmed = true
is_terminal_by_use cancelled = true
is_terminal_by_use _ = false

abbrev is_none {ℓ} : {A : Type ℓ} → Option A → Bool
is_none none = true
is_none (some a) = false

abbrev is_before : Option ℕ → ℕ → Bool
is_before none t = false
is_before (some at) t = ltb at t

-- One round of the loop of `restore`.
unfoldable pub restore_record : ChallengeRecord → Store (Unit {0})
restore_record candidate = do
  guard (ltb candidate.binding.issued_at candidate.binding.expires_at) invalid_challenge_record
  lift (canonicalize_binding candidate.binding)
  known ← gets (has candidate.binding.challenge_id)
  guard (not known) duplicate_challenge
  guard (not (is_terminal_by_use candidate.status && is_none candidate.consumed_at))
      missing_consumption_time
  guard (not (is_before candidate.consumed_at candidate.binding.issued_at)) consumed_before_issuance
  guard (not (is_created candidate.status && not (is_none candidate.consumed_at)))
      created_with_consumption_time
  modify (insert candidate.binding.challenge_id candidate)

unfoldable pub restore_all : List ChallengeRecord → Store (Unit {0})
restore_all [] = pure tt
restore_all (candidate ∷ rest) = restore_record candidate >>= λ _. restore_all rest

-- The store that a run of the loop leaves, if it did not throw.
abbrev pub restored : Result Error (Unit {0}) × ChallengeStore → Result Error ChallengeStore
restored (ok u, s) = ok s
restored (err e, s) = err e

unfoldable pub restore : List ChallengeRecord → Result Error ChallengeStore
unfolding restore_all restore_record
restore records = restored (restore_all records [])
