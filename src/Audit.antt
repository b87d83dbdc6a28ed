-- ===== src/Audit.antt =====
-- packages/audit/auditLog.ts: the hash chain of a log without a key provider. Event types `T` and
-- payloads `P` are the caller's; the SHA-256 digest of an event's JSON is the parameter `digest`.
pub mod Chain
pub mod Keyring
pub mod Signed
pub mod Verification
pub mod Rotation
pub mod Provisioned
pub mod Evidence
pub mod Custody
pub mod Restore
use contactless_airlock_lab.Prelude.{
  ℕ, suc, ◌+◌, Bool, true, ◌&&◌, Option, none, some, List, [], ◌∷◌, ◌++◌, Text, text, ◌==◌, text_Eq,
  length,
}

pub record AuditBody (T P : Type 0) : Type 0 where
  pub sequence : ℕ
  pub event_id : Text
  pub type : T
  pub correlation_id : Text
  pub occurred_at : ℕ
  pub payload : P
  pub previous_hash : Text

pub record AuditEvent (T P : Type 0) : Type 0 where
  pub body : AuditBody T P
  pub hash : Text

abbrev pub AuditLog : Type 0 → Type 0 → Type 0
AuditLog T P = List (AuditEvent T P)

-- HASH_GENESIS
abbrev pub hash_genesis : Text
hash_genesis = text "GENESIS"

module _ {T P : Type 0} where
  -- `events.at(-1)?.hash ?? previous`
  abbrev pub last_hash : Text → AuditLog T P → Text
  last_hash previous [] = previous
  last_hash previous (e ∷ es) = last_hash e.hash es

  -- The event before its hash.
  abbrev pub new_body : T → Text → P → ℕ → Text → AuditLog T P → AuditBody T P
  new_body type correlation_id payload occurred_at event_id log = record {
    sequence = length log + 1;
    event_id = event_id;
    type = type;
    correlation_id = correlation_id;
    occurred_at = occurred_at;
    payload = payload;
    previous_hash = last_hash hash_genesis log;
  }

  abbrev pub hashed : (AuditBody T P → Text) → AuditBody T P → AuditEvent T P
  hashed digest body = record { body = body; hash = digest body }

module _ {T P : Type 0} (digest : AuditBody T P → Text) where
  unfoldable pub append : T → Text → P → ℕ → Text → AuditLog T P → AuditLog T P
  append type correlation_id payload occurred_at event_id log =
      log ++ hashed digest (new_body type correlation_id payload occurred_at event_id log) ∷ []

  -- The loop of `verify`, at the hash expected next.
  unfoldable pub verify_from : Text → AuditLog T P → Bool
  verify_from previous [] = true
  verify_from previous (e ∷ es) =
      e.body.previous_hash == previous && digest e.body == e.hash && verify_from e.hash es

  unfoldable pub verify : AuditLog T P → Bool
  unfolding verify_from
  verify log = verify_from hash_genesis log
