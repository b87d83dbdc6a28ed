-- ===== src/Storage/Outbox/Delivery.antt =====
-- packages/storage/durableStore.ts: an outbox event once it is acknowledged.
use contactless_airlock_lab.Prelude.{
  ◌≡◌, ◌≢◌, refl, ap, ◌∙◌, ℕ, ◌+◌, true, false, some, List, [], ◌∷◌, Text, arith, ok, text_Eq,
  lookup, insert, lookup-insert_self, lookup-insert_ne, Option-cases, inl, inr, ◌>>=◌,
}
use contactless_airlock_lab.Storage.{OutboxEvent, OutboxTable}
use contactless_airlock_lab.Storage.Outbox.{
  is_updatable, claim_selected, claim_outbox, candidates, is_lease_of, delivered,
  acknowledge_outbox, released,
}
use contactless_airlock_lab.Storage.Outbox.Leases.{
  Call, enqueues, claims, acknowledges, releases, after, run, IsKeyed, returns, keyed-row,
  insert-IsKeyed, claim_rows-IsKeyed, claim_rows_fixed,
}
use contactless_airlock_lab.Storage.Outbox.Steps.{
  claim_cases, claim_ok, acknowledge_cases, release_cases, enqueue_cases,
}

module _ (id : Text) (row : OutboxEvent) (at : ℕ) (done : row.delivered_at ≡ some at) where
  -- The delivered row stands in a table that is keyed by its ids.
  abbrev Stands : OutboxTable → Type 0
  Stands t = IsKeyed t × (lookup id t ≡ some row)

  insert-Stands :
      (j : Text) (new : OutboxEvent) (t : OutboxTable)
      → new.event_id ≡ j
      → j ≢ id
      → Stands t
      → Stands (insert j new t)
  insert-Stands j new t own ne (k, h) =
      (insert-IsKeyed j new t own k, lookup-insert_ne j id new t ne ∙ h)

  -- A row under a lease is another one.
  change-Stands :
      (j worker : Text) (now : ℕ) (old new : OutboxEvent) (t : OutboxTable)
      → new.event_id ≡ old.event_id
      → lookup j t ≡ some old
      → is_lease_of worker now old ≡ true
      → Stands t
      → Stands (insert j new t)
  change-Stands j worker now old new t same found leased (k, h) =
      insert-Stands j new t (same ∙ keyed-row j old t k found)
        (λ e. ground (arith, h, done, ap (λ (x : Text). lookup x t) e)) (k, h)

  claim-Stands :
      (worker : Text) (limit lease now : ℕ) (t : OutboxTable)
      → Stands t
      → Stands (claim_outbox worker limit lease now t).1
  unfolding claim_selected
  claim-Stands worker limit lease now t (k, h) = elim (claim_cases worker limit lease now t) [
    | inl same ↦ rw same (k, h)
    | inr (selected, long) ↦
        let rows = candidates now limit t in
        let fixed : is_updatable now row ≡ false = ground (arith, done) in
        rw selected (
          claim_rows-IsKeyed worker (now + lease) now rows t k,
          (claim_rows_fixed worker (now + lease) now id row rows t k h fixed).0,
        )
  ]

  after-Stands : (c : Call) (t : OutboxTable) → Stands t → Stands (after c t)
  after-Stands (enqueues byte_length j key topic aggregate payload now) t h =
      elim (enqueue_cases byte_length j key topic aggregate payload now t) [
        | inl same ↦ rw same h
        | inr (new, free, own, added) ↦ rw added (
            insert-Stands j new t own (λ e. ground (arith, h.1, ap (λ (x : Text). lookup x t) e)) h)
      ]
  after-Stands (claims worker limit lease now) t h = claim-Stands worker limit lease now t h
  after-Stands (acknowledges j worker now) t h = elim (acknowledge_cases j worker now t) [
    | inl same ↦ rw same h
    | inr (old, found, leased, changed) ↦
        rw changed (change-Stands j worker now old (delivered now old) t refl found leased h)
  ]
  after-Stands (releases j worker retry_at now) t h = elim (release_cases j worker retry_at now t) [
    | inl same ↦ rw same h
    | inr (old, found, leased, changed) ↦
        rw changed (change-Stands j worker now old (released retry_at old) t refl found leased h)
  ]

  pub run-Stands : (cs : List Call) (t : OutboxTable) → Stands t → Stands (run cs t)
  run-Stands [] t h = h
  run-Stands (c ∷ cs) t h = run-Stands cs (after c t) (after-Stands c t h)

  delivered_not_claimed :
      (worker : Text) (limit lease now : ℕ) (t t' : OutboxTable) (events : List OutboxEvent)
      → Stands t
      → claim_outbox worker limit lease now t ≡ (ok events, t')
      → returns id events ≡ false
  delivered_not_claimed worker limit lease now t t' events (k, h) claimed =
      let c = claim_ok worker limit lease now t t' events claimed in
      let fixed : is_updatable now row ≡ false = ground (arith, done) in
      rw c.0
        (claim_rows_fixed worker (now + lease) now id row (candidates now limit t) t k h fixed).1

acknowledged :
    (id worker : Text) (now : ℕ) (t t' : OutboxTable)
    → acknowledge_outbox id worker now t ≡ (ok tt, t')
    → (row : OutboxEvent) × (lookup id t ≡ some row) × (t' ≡ insert id (delivered now row) t)
unfolding acknowledge_outbox ◌>>=◌
acknowledged id worker now t t' h = elim (Option-cases (lookup id t)) [
  | inl missing ↦ absurd (ground arith)
  | inr (row, found) ↦ (row, found, ground arith)
]

-- After an event was acknowledged, no claim returns it, whatever calls come between.
pub delivered_once :
    (id worker other : Text) (now limit lease later : ℕ) (t t' u : OutboxTable) (cs : List Call)
    (events : List OutboxEvent)
    → IsKeyed t
    → acknowledge_outbox id worker now t ≡ (ok tt, t')
    → claim_outbox other limit lease later (run cs t') ≡ (ok events, u)
    → returns id events ≡ false
delivered_once id worker other now limit lease later t t' u cs events k h second =
    let (row, found, changed) = acknowledged id worker now t t' h in
    let new = delivered now row in
    let stands : IsKeyed t' × (lookup id t' ≡ some new) =
      rw changed
        (insert-IsKeyed id new t (keyed-row id row t k found) k, lookup-insert_self id new t) in
    delivered_not_claimed id new now refl other limit lease later (run cs t') u events
      (run-Stands id new now refl cs t' stands) second
