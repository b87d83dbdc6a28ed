-- ===== src/Storage.antt =====
-- packages/storage/durableStore.ts: the tables of the durable store, with its versioned records and
-- idempotent mutations. A statement of SQL is the function of the rows that it selects or updates; a
-- record's value is the text of its JSON, and the dates of records and answers are valid.
pub mod Outbox
pub mod Records
pub mod Programs
pub mod Answers
use contactless_airlock_lab.Prelude.{
  ℕ, ◌+◌, Bool, true, false, not, ◌&&◌, Option, none, some, Text, nat_eq, nat_eq_iff, Eq, ◌==◌,
  text_Eq, text_eq_iff, ◌≡◌, ◌↔◌, arith, if◌then◌else◌, Map, lookup, insert, has, Result, ok, err,
  Exec, ◌>>=◌, ◌>>◌, pure, lift, gets, fetch, modify, guard, raise,
}

-- OutboxEvent, a row of outbox_events; its payload is the text of its JSON
pub record OutboxEvent : Type 0 where
  pub event_id : Text
  pub event_key : Text
  pub topic : Text
  pub aggregate_id : Text
  pub payload : Text
  pub created_at : ℕ
  pub available_at : ℕ
  pub attempts : ℕ
  pub claimed_by : Option Text
  pub claimed_until : Option ℕ
  pub delivered_at : Option ℕ

-- outbox_events, by its primary key
abbrev pub OutboxTable : Type 0
OutboxTable = Map Text OutboxEvent

pub data StorageError : Type 0 where
  invalid_identifier : StorageError
  invalid_payload : StorageError
  invalid_claim : StorageError
  invalid_lease : StorageError
  invalid_time : StorageError
  invalid_date : StorageError
  acknowledgement_conflict : StorageError
  release_conflict : StorageError
  constraint_violation : StorageError
  swap_conflict : StorageError
  key_reused : StorageError
  invalid_json : StorageError

-- VersionedRecord, a row of durable_challenges
pub record VersionedRecord : Type 0 where
  pub value : Text
  pub status : Text
  pub version : ℕ
  pub updated_at : ℕ

-- A row of idempotency_records
pub record IdempotencyRecord : Type 0 where
  pub request_hash : Text
  pub response : Text
  pub created_at : ℕ

-- The primary key of idempotency_records: the scope and the key.
abbrev pub ScopedKey : Type 0
ScopedKey = Text × Text

abbrev pub scoped_key_eq : ScopedKey → ScopedKey → Bool
scoped_key_eq (s, k) (t, j) = s == t && k == j

pub scoped_key_eq_iff : (a b : ScopedKey) → (scoped_key_eq a b ≡ true) ↔ (a ≡ b)
scoped_key_eq_iff (s, k) (t, j) = ground (arith, text_eq_iff s t, text_eq_iff k j)

instance abbrev pub scoped_key_Eq : Eq ScopedKey
scoped_key_Eq = record { beq = scoped_key_eq; beq_iff = scoped_key_eq_iff }

pub record DurableStore : Type 0 where
  pub challenges : Map Text VersionedRecord
  pub idempotency : Map ScopedKey IdempotencyRecord
  pub outbox : OutboxTable

pub record Idempotent (V : Type 0) : Type 0 where
  pub replayed : Bool
  pub value : V

-- JSON.stringify and JSON.parse on the values of an operation: a value may have no text (undefined, a
-- BigInt or a cycle), and a text may have no value.
pub record Json (V : Type 0) : Type 0 where
  pub stringify : V → Option Text
  pub parse : Text → Option V

abbrev pub Op : Type 0 → Type 0
Op A = Exec StorageError DurableStore A

abbrev pub put_record : Text → VersionedRecord → DurableStore → DurableStore
put_record id r s = record s { challenges = insert id r s.challenges }

unfoldable pub create_record : Text → Text → Text → ℕ → Op VersionedRecord
create_record id status value now = do
  known ← gets (λ s. has id s.challenges)
  guard (not known) constraint_violation
  let row : VersionedRecord = record {
    value = value;
    status = status;
    version = 0;
    updated_at = now;
  }
  modify (put_record id row)
  pure row

abbrev pub get_record : Text → DurableStore → Option VersionedRecord
get_record id s = lookup id s.challenges

-- The condition of the update in `compareAndSwap`.
abbrev pub is_current : ℕ → Text → Option VersionedRecord → Bool
is_current version status none = false
is_current version status (some row) = nat_eq row.version version && row.status == status

unfoldable pub compare_and_swap : Text → ℕ → Text → Text → Text → ℕ → Op VersionedRecord
compare_and_swap id expected_version expected_status next_status next_value now = do
  current ← gets (λ s. is_current expected_version expected_status (lookup id s.challenges))
  guard current swap_conflict
  let row : VersionedRecord = record {
    value = next_value;
    status = next_status;
    version = expected_version + 1;
    updated_at = now;
  }
  modify (put_record id row)
  pure row

-- BEGIN, the work, and COMMIT or ROLLBACK.
abbrev pub commit_or_roll_back :
    {A : Type 0}
    → DurableStore
    → Result StorageError A × DurableStore
    → Result StorageError A × DurableStore
commit_or_roll_back before (ok a, s) = (ok a, s)
commit_or_roll_back before (err e, s) = (err e, before)

unfoldable pub transaction : {A : Type 0} → Op A → Op A
transaction work s = commit_or_roll_back s (work s)

module _ {V : Type 0} (json : Json V) where
  -- The answer of a prior request.
  unfoldable pub answer_again : Text → IdempotencyRecord → Op (Idempotent V)
  answer_again request_hash prior = do
    guard (prior.request_hash == request_hash) key_reused
    value ← fetch (λ s. json.parse prior.response) invalid_json
    pure (record { replayed = true; value = value })

  unfoldable pub answer_first : ScopedKey → Text → Op V → ℕ → Op (Idempotent V)
  answer_first key request_hash operation now = do
    value ← operation
    response ← fetch (λ s. json.stringify value) invalid_json
    known ← gets (λ s. has key s.idempotency)
    guard (not known) constraint_violation
    modify λ s. record s {
      idempotency =
          insert key (record { request_hash = request_hash; response = response; created_at = now })
            s.idempotency;
    }
    pure (record { replayed = false; value = value })

  unfoldable pub answer : ScopedKey → Text → Op V → ℕ → Option IdempotencyRecord → Op (Idempotent V)
  answer key request_hash operation now (some prior) s = answer_again request_hash prior s
  answer key request_hash operation now none s = answer_first key request_hash operation now s

  unfoldable pub run_idempotent : Text → Text → Text → Op V → ℕ → Op (Idempotent V)
  run_idempotent scope key request_hash operation now = transaction (do
    prior ← gets (λ s. lookup (scope, key) s.idempotency)
    answer (scope, key) request_hash operation now prior)

  abbrev parsed : Option V → DurableStore → Result StorageError (Option V) × DurableStore
  parsed none s = (err invalid_json, s)
  parsed (some value) s = (ok (some value), s)

  unfoldable pub get_idempotent : Text → Text → Text → Op (Option V)
  get_idempotent scope key request_hash s = elim (lookup (scope, key) s.idempotency) [
    | none ↦ (ok none, s)
    | some prior ↦
        if prior.request_hash == request_hash
        then parsed (json.parse prior.response) s
        else (err key_reused, s)
  ]
