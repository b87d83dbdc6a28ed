-- ===== src/Audit/Keyring.antt =====
-- packages/audit/auditLog.ts: InMemoryAuditKeyring. A key is the list of its bytes.
use contactless_airlock_lab.Prelude.{
  ℕ, ◌+◌, Bool, true, false, not, ◌&&◌, Option, none, some, List, [], ◌∷◌, Text, leb, length,
  matches_id, text_Eq, Map, lookup, insert, has, Exec, ◌>>=◌, ◌>>◌, pure, gets, fetch, modify,
  guard, raise,
}

pub data AuditError : Type 0 where
  no_keys : AuditError
  key_not_provisioned : AuditError
  invalid_key : AuditError
  key_id_exists : AuditError
  key_is_retired : AuditError
  key_is_active : AuditError
  invalid_snapshot : AuditError
  verification_failed : AuditError
  anchor_mismatch : AuditError
  no_trust_anchor : AuditError

pub data KeyStatus : Type 0 where
  provisioned : KeyStatus
  active : KeyStatus
  retired : KeyStatus

pub record KeyEntry : Type 0 where
  pub key : List ℕ
  pub status : KeyStatus
  pub key_version : Option ℕ

pub record ActiveKey : Type 0 where
  pub key_id : Text
  pub key_version : ℕ
  pub key : List ℕ

-- VerificationAuditKey
pub record VerificationKey : Type 0 where
  pub key_id : Text
  pub key_version : ℕ
  pub key : List ℕ
  pub status : KeyStatus

pub record Keyring : Type 0 where
  pub keys : Map Text KeyEntry
  pub active_key_id : Text
  pub latest_key_version : ℕ

abbrev pub Op : Type 0 → Type 0
Op A = Exec AuditError Keyring A

-- validateKey, as a test
abbrev pub is_key : Text → List ℕ → Bool
is_key key_id key = matches_id key_id && leb 32 (length key)

unfoldable pub add : Text → List ℕ → Op (Unit {0})
add key_id key = do
  guard (is_key key_id key) invalid_key
  known ← gets (λ r. has key_id r.keys)
  guard (not known) key_id_exists
  modify λ r. record r {
    keys = insert key_id (record { key = key; status = provisioned; key_version = none }) r.keys;
  }

abbrev is_retired : KeyStatus → Bool
is_retired s = elim s [ retired ↦ true | _ ↦ false ]

abbrev is_active : KeyStatus → Bool
is_active s = elim s [ active ↦ true | _ ↦ false ]

abbrev pub retire : KeyEntry → KeyEntry
retire e = record e { status = retired }

abbrev pub make_active : ℕ → KeyEntry → KeyEntry
make_active version e = record e { status = active; key_version = some version }

-- `next.status = "active"` and what follows.
abbrev pub activated : Text → KeyEntry → Keyring → Keyring
activated key_id next r = record r {
  keys = insert key_id (make_active (r.latest_key_version + 1) next) r.keys;
  active_key_id = key_id;
  latest_key_version = r.latest_key_version + 1;
}

unfoldable pub activate : Text → Op (Unit {0})
activate key_id = do
  next ← fetch (λ r. lookup key_id r.keys) key_not_provisioned
  guard (not (is_retired next.status)) key_is_retired
  guard (not (is_active next.status)) key_is_active
  current ← fetch (λ r. lookup r.active_key_id r.keys) key_not_provisioned
  modify (λ r. record r { keys = insert r.active_key_id (retire current) r.keys })
  modify (activated key_id next)

unfoldable pub add_all : List (Text × List ℕ) → Op (Unit {0})
add_all [] = pure tt
add_all ((key_id, key) ∷ keys) = add key_id key >>= λ _. add_all keys

abbrev pub no_keyring : Keyring
no_keyring = record { keys = []; active_key_id = []; latest_key_version = 0 }

-- The constructor, on a keyring without keys.
unfoldable pub construct : List (Text × List ℕ) → Text → Op (Unit {0})
construct [] active_key_id = raise no_keys
construct (k ∷ ks) active_key_id = do
  add_all (k ∷ ks)
  first ← fetch (λ r. lookup active_key_id r.keys) key_not_provisioned
  modify (activated active_key_id first)

abbrev as_active : Text → Option KeyEntry → Option ActiveKey
as_active key_id none = none
as_active key_id (some e) = elim e.key_version [
  | none ↦ none
  | some version ↦ some (record { key_id = key_id; key_version = version; key = e.key })
]

-- `activeKey`, and `keyFor`
unfoldable pub active_key : Keyring → Option ActiveKey
active_key r = as_active r.active_key_id (lookup r.active_key_id r.keys)

abbrev pub as_verification : Text → KeyEntry → Option VerificationKey
as_verification key_id e = elim e.status [
  | provisioned ↦ none
  | status ↦ elim e.key_version [
    | none ↦ none
    | some version ↦
        some (record { key_id = key_id; key_version = version; key = e.key; status = e.status })
  ]
]

unfoldable pub key_for : Text → Keyring → Option VerificationKey
key_for key_id r = elim (lookup key_id r.keys) [ none ↦ none | some e ↦ as_verification key_id e ]
