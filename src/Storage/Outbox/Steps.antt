-- ===== src/Storage/Outbox/Steps.antt =====
-- packages/storage/durableStore.ts: what one call does to the outbox.
use contactless_airlock_lab.Prelude.{
  ◌≡◌, refl, ℕ, ◌+◌, ◌≤◌, true, Option, none, some, List, [], Text, arith, ok, text_Eq, lookup,
  insert, Bool-cases, Option-cases, ◌⊎◌, inl, inr, ◌&&◌, ◌>>=◌,
}
use contactless_airlock_lab.Storage.{OutboxEvent, OutboxTable}
use contactless_airlock_lab.Storage.Outbox.{
  is_bounded, is_date, last_plain_instant, claim_rows, claim_selected, claim_outbox, candidates,
  is_lease_of, delivered, acknowledge_outbox, released, release_outbox, new_event, enqueue,
}

-- What a claim that the guards refuse, or pass, comes to.
pub claim_cases :
    (worker : Text) (limit lease now : ℕ) (t : OutboxTable)
    → ((claim_outbox worker limit lease now t).1 ≡ t)
      ⊎ ((claim_outbox worker limit lease now t ≡ claim_selected worker limit lease now t)
          × (1000 ≤ lease))
unfolding claim_outbox ◌>>=◌
claim_cases worker limit lease now t = ground arith

pub claim_passes :
    (worker : Text) (limit lease now : ℕ) (t : OutboxTable)
    → is_bounded 128 worker ≡ true
    → 1 ≤ limit
    → limit ≤ 1000
    → 1000 ≤ lease
    → now + lease ≤ last_plain_instant
    → claim_outbox worker limit lease now t ≡ claim_selected worker limit lease now t
unfolding claim_outbox ◌>>=◌
claim_passes worker limit lease now t bounded some_rows small long safe =
    let early : is_date now ≡ true = ground (arith, safe) in
    rw (bounded, early) (ground (arith, bounded))

pub claim_ok :
    (worker : Text) (limit lease now : ℕ) (t t' : OutboxTable) (events : List OutboxEvent)
    → claim_outbox worker limit lease now t ≡ (ok events, t')
    → (events ≡ (claim_rows worker (now + lease) now (candidates now limit t) t).0)
      × (t' ≡ (claim_rows worker (now + lease) now (candidates now limit t) t).1)
      × (1000 ≤ lease)
unfolding claim_outbox claim_selected ◌>>=◌
claim_ok worker limit lease now t t' events h = (ground arith, ground arith, ground arith)

-- What a call does to the table: nothing, or it writes one row.
pub acknowledge_cases :
    (j worker : Text) (now : ℕ) (t : OutboxTable)
    → ((acknowledge_outbox j worker now t).1 ≡ t)
      ⊎ ((row : OutboxEvent) × (lookup j t ≡ some row)
          × (is_lease_of worker now row ≡ true)
          × ((acknowledge_outbox j worker now t).1 ≡ insert j (delivered now row) t))
unfolding acknowledge_outbox ◌>>=◌
acknowledge_cases j worker now t = elim (Option-cases (lookup j t)) [
  | inl missing ↦ inl (ground arith)
  | inr (row, found) ↦ elim (Bool-cases (is_lease_of worker now row)) [
    | inr foreign ↦ inl (ground arith)
    | inl own ↦ elim (Bool-cases (is_bounded 128 worker && is_date now)) [
      | inr bad ↦ inl (ground arith)
      | inl good ↦ inr (row, found, own, ground arith)
    ]
  ]
]

pub release_cases :
    (j worker : Text) (retry_at now : ℕ) (t : OutboxTable)
    → ((release_outbox j worker retry_at now t).1 ≡ t)
      ⊎ ((row : OutboxEvent) × (lookup j t ≡ some row)
          × (is_lease_of worker now row ≡ true)
          × ((release_outbox j worker retry_at now t).1 ≡ insert j (released retry_at row) t))
unfolding release_outbox ◌>>=◌
release_cases j worker retry_at now t = elim (Option-cases (lookup j t)) [
  | inl missing ↦ inl (ground arith)
  | inr (row, found) ↦ elim (Bool-cases (is_lease_of worker now row)) [
    | inr foreign ↦ inl (ground arith)
    | inl own ↦ elim (Bool-cases (is_bounded 128 worker && is_date retry_at && is_date now)) [
      | inr bad ↦ inl (ground arith)
      | inl good ↦ inr (row, found, own, ground arith)
    ]
  ]
]

pub enqueue_cases :
    (byte_length : Text → ℕ) (j key topic aggregate : Text) (payload : Option Text) (now : ℕ)
    (t : OutboxTable)
    → ((enqueue byte_length j key topic aggregate payload now t).1 ≡ t)
      ⊎ ((row : OutboxEvent) × (lookup j t ≡ none)
          × (row.event_id ≡ j)
          × ((enqueue byte_length j key topic aggregate payload now t).1 ≡ insert j row t))
unfolding enqueue ◌>>=◌
enqueue_cases byte_length j key topic aggregate payload now t = elim (Option-cases (lookup j t)) [
  | inr (row, found) ↦ inl (ground arith)
  | inl missing ↦
      let row =
        new_event j key topic aggregate (elim payload [ none ↦ [] | some json ↦ json ]) now in
      elim (enqueued row missing) [ inl same ↦ inl same | inr new ↦ inr (row, missing, refl, new) ]
]
  where
    enqueued :
        (row : OutboxEvent)
        → lookup j t ≡ none
        → ((enqueue byte_length j key topic aggregate payload now t).1 ≡ t)
          ⊎ ((enqueue byte_length j key topic aggregate payload now t).1
              ≡ insert j
                  (new_event j key topic aggregate
                    (elim payload [ none ↦ [] | some json ↦ json ])
                    now)
                  t)
    enqueued row missing = ground arith
