-- ===== src/Storage/Records.antt =====
-- packages/storage/durableStore.ts: versioned records under further calls.
use contactless_airlock_lab.Prelude.{
  ◌≡◌, ◌≢◌, refl, sym, ap, ◌∙◌, ℕ, ◌+◌, ◌≤◌, ◌<◌, none, some, List, [], ◌∷◌, Text, arith, ok, err,
  text_Eq, text_eq_iff, lookup, lookup-insert, lookup-insert_self, lookup-insert_ne, Bool-cases,
  Option-cases, ◌⊎◌, inl, inr, ◌==◌, ◌>>=◌,
}
use contactless_airlock_lab.Storage.{
  VersionedRecord, DurableStore, swap_conflict, is_current, put_record, create_record,
  compare_and_swap,
}

-- The calls that write records.
pub data Call : Type 0 where
  creates : Text → Text → Text → ℕ → Call
  swaps : Text → ℕ → Text → Text → Text → ℕ → Call

abbrev pub after : Call → DurableStore → DurableStore
after (creates id status value now) s = (create_record id status value now s).1
after (swaps id version status next value now) s =
    (compare_and_swap id version status next value now s).1

abbrev pub run : List Call → DurableStore → DurableStore
run [] s = s
run (c ∷ cs) s = run cs (after c s)

-- The record has passed the version.
pub record Past (id : Text) (version : ℕ) (s : DurableStore) : Type 0 where
  pub row : VersionedRecord
  pub stored : lookup id s.challenges ≡ some row
  pub later : version < row.version

swap_stale :
    (id : Text) (version expected : ℕ) (status next value : Text) (now : ℕ) (s : DurableStore)
    → Past id version s
    → expected ≤ version
    → compare_and_swap id expected status next value now s ≡ (err swap_conflict, s)
unfolding compare_and_swap ◌>>=◌
swap_stale id version expected status next value now s p old = ground (arith, p.stored, p.later)

swap_cases :
    (id : Text) (expected : ℕ) (status next value : Text) (now : ℕ) (s : DurableStore)
    → ((compare_and_swap id expected status next value now s).1 ≡ s)
      ⊎ ((row new : VersionedRecord) × (lookup id s.challenges ≡ some row)
          × (row.version ≡ expected)
          × (new.version ≡ expected + 1)
          × ((compare_and_swap id expected status next value now s).1 ≡ put_record id new s))
unfolding compare_and_swap ◌>>=◌
swap_cases id expected status next value now s = elim (Option-cases (lookup id s.challenges)) [
  | inl missing ↦ inl (ground arith)
  | inr (row, found) ↦ elim (Bool-cases (is_current expected status (some row))) [
    | inr stale ↦ inl (ground arith)
    | inl current ↦
        let new : VersionedRecord = record {
          value = value;
          status = next;
          version = expected + 1;
          updated_at = now;
        } in
        inr (row, new, found, ground arith, refl, ground arith)
  ]
]

create_cases :
    (id status value : Text) (now : ℕ) (s : DurableStore)
    → ((create_record id status value now s).1 ≡ s)
      ⊎ ((row : VersionedRecord) × (lookup id s.challenges ≡ none)
          × ((create_record id status value now s).1 ≡ put_record id row s))
unfolding create_record ◌>>=◌
create_cases id status value now s = elim (Option-cases (lookup id s.challenges)) [
  | inr (row, found) ↦ inl (ground arith)
  | inl missing ↦
      let row : VersionedRecord = record {
        value = value;
        status = status;
        version = 0;
        updated_at = now;
      } in
      inr (row, missing, ground arith)
]

module _ (id : Text) (version : ℕ) where
  after-Past : (c : Call) (s : DurableStore) → Past id version s → Past id version (after c s)
  after-Past (creates j status value now) s p = elim (create_cases j status value now s) [
    | inl same ↦ rw same p
    | inr (row, missing, added) ↦
        let ne : j ≢ id =
          λ e. ground (arith, p.stored, ap (λ (x : Text). lookup x s.challenges) e) in
        rw added (record {
          row = p.row;
          stored = lookup-insert_ne j id row s.challenges ne ∙ p.stored;
          later = p.later;
        })
  ]
  after-Past (swaps j expected status next value now) s p =
      elim (swap_cases j expected status next value now s) [
        | inl same ↦ rw same p
        | inr (row, new, found, was, is, changed) ↦ rw changed (elim (Bool-cases (j == id)) [
          | inr other ↦ record {
            row = p.row;
            stored = rw (lookup-insert j id new s.challenges, other) p.stored;
            later = p.later;
          }
          | inl this ↦
              let e : j ≡ id = (text_eq_iff j id).0 this in
              let same : some row ≡ some p.row =
                sym found ∙ ap (λ (x : Text). lookup x s.challenges) e ∙ p.stored in
              record {
                row = new;
                stored = rw (lookup-insert j id new s.challenges, this) refl;
                later = ground (arith, same, p.later);
              }
        ])
      ]

  run-Past : (cs : List Call) (s : DurableStore) → Past id version s → Past id version (run cs s)
  run-Past [] s p = p
  run-Past (c ∷ cs) s p = run-Past cs (after c s) (after-Past c s p)

swapped-Past :
    (id : Text) (expected : ℕ) (status next value : Text) (now : ℕ) (row : VersionedRecord)
    (s s' : DurableStore)
    → compare_and_swap id expected status next value now s ≡ (ok row, s')
    → Past id expected s'
unfolding compare_and_swap ◌>>=◌
swapped-Past id expected status next value now row s s' h = record {
  row = row;
  stored = ground (arith, lookup-insert_self id row s.challenges);
  later = ground arith;
}

-- After a swap of a record returned, and after any further creations and swaps, one that expects
-- the version which that swap expected, or an older one, fails and changes nothing.
pub swap_once :
    (id : Text) (expected stale : ℕ) (status next value status' next' value' : Text) (now later : ℕ)
    (row : VersionedRecord) (s s' : DurableStore) (cs : List Call)
    → compare_and_swap id expected status next value now s ≡ (ok row, s')
    → stale ≤ expected
    → compare_and_swap id stale status' next' value' later (run cs s')
      ≡ (err swap_conflict, run cs s')
swap_once id expected stale status next value status' next' value' now later row s s' cs h old =
    swap_stale id expected stale status' next' value' later (run cs s')
      (run-Past id expected cs s' (swapped-Past id expected status next value now row s s' h)) old
