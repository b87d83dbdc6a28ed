-- ===== src/Storage/Programs.antt =====
-- packages/storage/durableStore.ts: the operations of idempotent mutations, as calls of a MutationTransaction.
use contactless_airlock_lab.Prelude.{
  ◌≡◌, refl, ◌∙◌, ℕ, Option, Text, arith, Result, ok, err, text_Eq, lookup, has, Bool-cases, inl,
  inr, ◌>>=◌,
}
use contactless_airlock_lab.Storage.{
  OutboxEvent, OutboxTable, StorageError, VersionedRecord, DurableStore, scoped_key_Eq, is_current,
  create_record, compare_and_swap, Op,
}
use contactless_airlock_lab.Storage.Outbox.{enqueue}

abbrev on_outbox :
    {A : Type 0}
    → DurableStore
    → Result StorageError A × OutboxTable
    → Result StorageError A × DurableStore
on_outbox s (r, table) = (r, record s { outbox = table })

-- MutationTransaction: its calls, and a T that returns or throws; a call that throws may be caught.
pub data Program (V : Type 0) : Type 0 where
  returns : V → Program V
  throws : StorageError → Program V
  creates : Text → Text → Text → ℕ → (Result StorageError VersionedRecord → Program V) → Program V
  swaps :
      Text
      → ℕ
      → Text
      → Text
      → Text
      → ℕ
      → (Result StorageError VersionedRecord → Program V)
      → Program V
  enqueues :
      (Text → ℕ)
      → Text
      → Text
      → Text
      → Text
      → Option Text
      → ℕ
      → (Result StorageError OutboxEvent → Program V)
      → Program V

unfoldable pub perform : {V : Type 0} → Program V → Op V
perform (returns value) s = (ok value, s)
perform (throws e) s = (err e, s)
perform (creates id status value now next) s =
    let done = create_record id status value now s in perform (next done.0) done.1
perform (swaps id version status next_status value now next) s =
    let done = compare_and_swap id version status next_status value now s in
    perform (next done.0) done.1
perform (enqueues byte_length id key topic aggregate payload now next) s =
    let done = on_outbox s (enqueue byte_length id key topic aggregate payload now s.outbox) in
    perform (next done.0) done.1

pub create-idempotency :
    (id status value : Text) (now : ℕ) (s : DurableStore)
    → (create_record id status value now s).1.idempotency ≡ s.idempotency
unfolding create_record ◌>>=◌
create-idempotency id status value now s = elim (Bool-cases (has id s.challenges)) [
  | inl known ↦ ground (arith, known)
  | inr new ↦ ground (arith, new)
]

pub swap-idempotency :
    (id : Text) (version : ℕ) (status next value : Text) (now : ℕ) (s : DurableStore)
    → (compare_and_swap id version status next value now s).1.idempotency ≡ s.idempotency
unfolding compare_and_swap ◌>>=◌
swap-idempotency id version status next value now s =
    elim (Bool-cases (is_current version status (lookup id s.challenges))) [
      | inl current ↦ ground (arith, current)
      | inr stale ↦ ground (arith, stale)
    ]

-- An operation does not reach the answers of mutations.
pub perform-idempotency :
    {V : Type 0} (p : Program V) (s : DurableStore) → (perform p s).1.idempotency ≡ s.idempotency
unfolding perform
perform-idempotency (returns value) s = refl
perform-idempotency (throws e) s = refl
perform-idempotency (creates id status value now next) s =
    let done = create_record id status value now s in
    perform-idempotency (next done.0) done.1 ∙ create-idempotency id status value now s
perform-idempotency (swaps id version status next_status value now next) s =
    let done = compare_and_swap id version status next_status value now s in
    perform-idempotency (next done.0) done.1
    ∙ swap-idempotency id version status next_status value now s
perform-idempotency (enqueues byte_length id key topic aggregate payload now next) s =
    let done = on_outbox s (enqueue byte_length id key topic aggregate payload now s.outbox) in
    perform-idempotency (next done.0) done.1
