-- ===== src/Audit/Verification.antt =====
-- packages/audit/auditLog.ts: the verification of a log with a key provider or without, and its trust
-- anchors.
use contactless_airlock_lab.Prelude.{
  ℕ, Bool, true, false, not, ◌&&◌, Option, none, some, List, [], ◌∷◌, Text, leb, nat_eq, length,
  is_empty, ◌==◌, text_Eq, if◌then◌else◌, Result, ok, err,
}
use contactless_airlock_lab.Audit.{hash_genesis}
use contactless_airlock_lab.Audit.Keyring.{AuditError, invalid_key, VerificationKey, is_key}
use contactless_airlock_lab.Audit.Signed.{
  AuditAuthentication, SignedEvent, KeyProvider, TrustAnchor, Functions, authentication_tag,
  authentication_genesis, is_authentication, tag_of, tip_hash, tip,
}

-- Where the verification stands: the hash, the tag, the key version and the key id before.
pub record Position : Type 0 where
  pub previous_hash : Text
  pub previous_tag : Text
  pub previous_version : ℕ
  pub previous_key_id : Option Text

abbrev pub start : Position
start = record {
  previous_hash = hash_genesis;
  previous_tag = authentication_genesis;
  previous_version = 0;
  previous_key_id = none;
}

module _ {T P : Type 0} (f : Functions T P) where
  -- `body.previousHash !== previousHash || digest(body) !== hash`, negated
  abbrev pub is_linked : Position → SignedEvent T P → Bool
  is_linked at e = e.body.previous_hash == at.previous_hash && f.digest e.body == e.hash

  abbrev pub same_key_id : Option Text → Text → Bool
  same_key_id none key_id = false
  same_key_id (some previous) key_id = previous == key_id

  -- The tests of the key that the provider has for an event.
  abbrev pub is_key_of : Position → AuditAuthentication → VerificationKey → Bool
  is_key_of at a k =
      nat_eq k.key_version a.key_version
      && leb at.previous_version a.key_version
      && not (
          nat_eq a.key_version at.previous_version && not (same_key_id at.previous_key_id a.key_id))

  abbrev pub is_tag_of : Position → SignedEvent T P → AuditAuthentication → VerificationKey → Bool
  is_tag_of at e a k =
      f.decode
        (authentication_tag f k.key e.body.sequence e.hash a.key_id a.key_version at.previous_tag)
      == f.decode a.tag

  abbrev pub past : SignedEvent T P → AuditAuthentication → Position
  past e a = record {
    previous_hash = e.hash;
    previous_tag = a.tag;
    previous_version = a.key_version;
    previous_key_id = some a.key_id;
  }

  abbrev pub past_unsigned : Position → SignedEvent T P → Position
  past_unsigned at e = record at { previous_hash = e.hash }

  -- One round of `verify`: the next position, or false as none, or the error of `validateKey`.
  unfoldable pub check_key :
      Position
      → SignedEvent T P
      → AuditAuthentication
      → Option VerificationKey
      → Result AuditError (Option Position)
  check_key at e a none = ok none
  check_key at e a (some k) =
      if is_key_of at a k
      then (if is_key a.key_id k.key
          then (if is_tag_of at e a k then ok (some (past e a)) else ok none)
          else err invalid_key)
      else ok none

  unfoldable pub check_event :
      Option KeyProvider
      → Position
      → SignedEvent T P
      → Option AuditAuthentication
      → Result AuditError (Option Position)
  unfolding check_key
  check_event none at e none = ok (some (past_unsigned at e))
  check_event none at e (some a) = ok none
  check_event (some p) at e none = ok none
  check_event (some p) at e (some a) =
      if is_authentication a && a.previous_authentication_tag == at.previous_tag
      then check_key at e a (p.key_for a.key_id)
      else ok none

  unfoldable pub check :
      Option KeyProvider → Position → SignedEvent T P → Result AuditError (Option Position)
  unfolding check_event
  check provider at e =
      if is_linked at e then check_event provider at e e.authentication else ok none

  -- The loop of `verify`.
  unfoldable pub verify_rest :
      Option KeyProvider → Position → List (SignedEvent T P) → Result AuditError Bool
  unfolding check
  verify_rest provider at [] = ok true
  verify_rest provider at (e ∷ es) = elim (check provider at e) [
    | err x ↦ err x
    | ok next ↦ elim next [ none ↦ ok false | some position ↦ verify_rest provider position es ]
  ]

  unfoldable pub verify_signed :
      Option KeyProvider → List (SignedEvent T P) → Result AuditError Bool
  unfolding verify_rest
  verify_signed provider log = verify_rest provider start log

module _ {T P : Type 0} where
  -- `trustAnchor` of a log with a key provider
  unfoldable pub trust_anchor : KeyProvider → List (SignedEvent T P) → TrustAnchor
  trust_anchor p log =
      let last = tip none log in
      record {
        event_count = length log;
        tip_hash = tip_hash hash_genesis log;
        tip_authentication_tag = tag_of last;
        tip_key_id = elim last [
          | none ↦ none
          | some a ↦ if is_empty a.key_id then none else some a.key_id
        ];
        tip_key_version = elim last [
          | none ↦ none
          | some a ↦ if nat_eq a.key_version 0 then none else some a.key_version
        ];
        active_key_id = p.active_key.key_id;
        active_key_version = p.active_key.key_version;
      }

abbrev pub option_text_eq : Option Text → Option Text → Bool
option_text_eq none none = true
option_text_eq (some a) (some b) = a == b
option_text_eq _ _ = false

abbrev pub option_nat_eq : Option ℕ → Option ℕ → Bool
option_nat_eq none none = true
option_nat_eq (some a) (some b) = nat_eq a b
option_nat_eq _ _ = false

-- The comparison in `verifyTrustAnchor`.
unfoldable pub same_anchor : TrustAnchor → TrustAnchor → Bool
same_anchor a b =
    nat_eq a.event_count b.event_count
    && a.tip_hash == b.tip_hash
    && a.tip_authentication_tag == b.tip_authentication_tag
    && option_text_eq a.tip_key_id b.tip_key_id
    && option_nat_eq a.tip_key_version b.tip_key_version
    && a.active_key_id == b.active_key_id
    && nat_eq a.active_key_version b.active_key_version
