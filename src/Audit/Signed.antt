-- ===== src/Audit/Signed.antt =====
-- packages/audit/auditLog.ts: the log with a key provider or without. The SHA-256 digest of a body, the
-- HMAC of an event and the decoding of base64url are node:crypto's and node:buffer's.
use contactless_airlock_lab.Prelude.{
  ℕ, ◌+◌, Bool, ◌&&◌, ◌||◌, Option, none, some, List, [], ◌∷◌, ◌++◌, Text, text, ltb, leb, nat_eq,
  length, all, matches_id, is_alphanumeric, ◌==◌, text_Eq, if◌then◌else◌, Result, ok, err,
}
use contactless_airlock_lab.Audit.{AuditBody, hash_genesis}
use contactless_airlock_lab.Audit.Keyring.{
  AuditError, invalid_key, ActiveKey, VerificationKey, is_key,
}

-- AuditAuthentication; its algorithm is the one literal
pub record AuditAuthentication : Type 0 where
  pub key_id : Text
  pub key_version : ℕ
  pub previous_authentication_tag : Text
  pub tag : Text

pub record SignedEvent (T P : Type 0) : Type 0 where
  pub body : AuditBody T P
  pub hash : Text
  pub authentication : Option AuditAuthentication

-- AuditKeyProvider
pub record KeyProvider : Type 0 where
  pub active_key : ActiveKey
  pub key_for : Text → Option VerificationKey

-- AuditTrustAnchor
pub record TrustAnchor : Type 0 where
  pub event_count : ℕ
  pub tip_hash : Text
  pub tip_authentication_tag : Text
  pub tip_key_id : Option Text
  pub tip_key_version : Option ℕ
  pub active_key_id : Text
  pub active_key_version : ℕ

-- AuditLogSnapshot, by its schema version 1 or 2
pub data Snapshot (T P : Type 0) : Type 0 where
  legacy : List (SignedEvent T P) → Snapshot T P
  authenticated : List (SignedEvent T P) → Snapshot T P

pub record Functions (T P : Type 0) : Type 0 where
  pub digest : AuditBody T P → Text
  -- The HMAC of a text by a key, in base64url, and the decimal digits of a number.
  pub hmac : List ℕ → Text → Text
  pub print : ℕ → Text
  pub decode : Text → Text

abbrev pub newline : Text
newline = 10 ∷ []

-- authenticationTag
unfoldable pub authentication_tag :
    {T P : Type 0} → Functions T P → List ℕ → ℕ → Text → Text → ℕ → Text → Text
authentication_tag f key sequence hash key_id key_version previous_tag = f.hmac key (
    text "airlock-audit-hmac-v1"
    ++ newline
    ++ f.print sequence
    ++ newline
    ++ hash
    ++ newline
    ++ key_id
    ++ newline
    ++ f.print key_version
    ++ newline
    ++ previous_tag)

abbrev pub authentication_genesis : Text
authentication_genesis = text "AUTH-GENESIS"

-- /^[A-Za-z0-9_-]{43}$/
unfoldable pub matches_tag : Text → Bool
matches_tag s =
    all (λ c. is_alphanumeric c || nat_eq c b'_' || nat_eq c b'-') s && nat_eq (length s) 43

-- validateAuthentication
unfoldable pub is_authentication : AuditAuthentication → Bool
is_authentication a =
    matches_id a.key_id
    && ltb 0 a.key_version
    && leb a.key_version 9007199254740991
    && (a.previous_authentication_tag == authentication_genesis
        || matches_tag a.previous_authentication_tag)
    && matches_tag a.tag

abbrev pub tag_of : Option AuditAuthentication → Text
tag_of none = authentication_genesis
tag_of (some a) = a.tag

module _ {T P : Type 0} where
  -- The hash and the authentication of `this.#events.at(-1)`.
  abbrev pub tip_hash : Text → List (SignedEvent T P) → Text
  tip_hash previous [] = previous
  tip_hash previous (e ∷ es) = tip_hash e.hash es

  abbrev pub tip : Option AuditAuthentication → List (SignedEvent T P) → Option AuditAuthentication
  tip previous [] = previous
  tip previous (e ∷ es) = tip e.authentication es

  abbrev pub next_body : T → Text → P → ℕ → Text → List (SignedEvent T P) → AuditBody T P
  next_body type correlation_id payload occurred_at event_id log = record {
    sequence = length log + 1;
    event_id = event_id;
    type = type;
    correlation_id = correlation_id;
    occurred_at = occurred_at;
    payload = payload;
    previous_hash = tip_hash hash_genesis log;
  }

module _ {T P : Type 0} (f : Functions T P) where
  abbrev pub new_authentication : ActiveKey → AuditBody T P → Text → AuditAuthentication
  new_authentication k body previous_tag = record {
    key_id = k.key_id;
    key_version = k.key_version;
    previous_authentication_tag = previous_tag;
    tag =
        authentication_tag f k.key body.sequence (f.digest body) k.key_id k.key_version
          previous_tag;
  }

  -- The end of `append`, with `#authenticate` where there is a key provider.
  abbrev pub signed :
      Option KeyProvider
      → AuditBody T P
      → List (SignedEvent T P)
      → Result AuditError (SignedEvent T P)
  signed none body log = ok (record { body = body; hash = f.digest body; authentication = none })
  signed (some p) body log =
      if is_key p.active_key.key_id p.active_key.key
      then ok (record {
        body = body;
        hash = f.digest body;
        authentication = some (new_authentication p.active_key body (tag_of (tip none log)));
      })
      else err invalid_key

  abbrev pub pushed :
      List (SignedEvent T P)
      → Result AuditError (SignedEvent T P)
      → Result AuditError (List (SignedEvent T P))
  pushed log (ok e) = ok (log ++ e ∷ [])
  pushed log (err x) = err x

  unfoldable pub append_signed :
      Option KeyProvider
      → T
      → Text
      → P
      → ℕ
      → Text
      → List (SignedEvent T P)
      → Result AuditError (List (SignedEvent T P))
  append_signed provider type correlation_id payload occurred_at event_id log =
      pushed log
        (signed provider (next_body type correlation_id payload occurred_at event_id log) log)
