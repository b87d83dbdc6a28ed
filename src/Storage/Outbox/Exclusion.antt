-- ===== src/Storage/Outbox/Exclusion.antt =====
-- packages/storage/durableStore.ts: two workers and one outbox event.
use contactless_airlock_lab.Prelude.{
  ◌≡◌, ◌≢◌, refl, sym, ap, ◌∙◌, ℕ, ◌+◌, ◌≤◌, ◌<◌, true, false, some, List, [], ◌∷◌, Text, arith,
  All, ok, text_Eq, text_eq_iff, lookup, insert, lookup-insert_self, lookup-insert_ne, Bool-cases,
  Option-cases, ◌⊎◌, inl, inr, ◌==◌,
}
use contactless_airlock_lab.Storage.{OutboxEvent, OutboxTable}
use contactless_airlock_lab.Storage.Outbox.{
  last_plain_instant, is_updatable, claimed, claim_rows, claim_selected, claim_outbox, candidates,
  is_lease_of, delivered, released,
}
use contactless_airlock_lab.Storage.Outbox.Leases.{
  Call, enqueues, claims, acknowledges, releases, after, run, IsKeyed, returns, Held, keyed-row,
  insert-IsKeyed, claim_missing, claim_skipped, claim_taken, claim_rows-IsKeyed, claim_rows-Held,
}
use contactless_airlock_lab.Storage.Outbox.Steps.{
  claim_cases, claim_ok, acknowledge_cases, release_cases, enqueue_cases,
}

module _ (worker : Text) (until now : ℕ) (later : now < until)
    (plain : until ≤ last_plain_instant) where
  claimed-Held :
      (row : OutboxEvent) (id : Text) (t : OutboxTable)
      → is_updatable now row ≡ true
      → Held id worker until (insert id (claimed worker until row) t)
  claimed-Held row id t free = record {
    row = claimed worker until row;
    stored = lookup-insert_self id (claimed worker until row) t;
    claimant = refl;
    lease = refl;
    undelivered = ground arith;
  }

  -- Every event that the loop returns is then held by the worker.
  pub returned-Held :
      (id : Text) (cs : List OutboxEvent) (t : OutboxTable)
      → IsKeyed t
      → returns id (claim_rows worker until now cs t).0 ≡ true
      → Held id worker until (claim_rows worker until now cs t).1
  unfolding claim_rows
  returned-Held id [] t k r = absurd (ground arith)
  returned-Held id (c ∷ cs) t k r = elim (Option-cases (lookup c.event_id t)) [
    | inl missing ↦
        let same = claim_missing worker until now c cs t missing in
        rw same (returned-Held id cs t k (rw same at r))
    | inr (row, found) ↦ elim (Bool-cases (is_updatable now row)) [
      | inr fixed ↦
          let same = claim_skipped worker until now c cs row t found fixed in
          rw same (returned-Held id cs t k (rw same at r))
      | inl free ↦
          let same = claim_taken worker until now c cs row t found free in
          let keyed = keyed-row c.event_id row t k found in
          let u = insert c.event_id (claimed worker until row) t in
          let k' = insert-IsKeyed c.event_id (claimed worker until row) t keyed k in
          rw same (elim (Bool-cases (row.event_id == id)) [
            | inl this ↦
                let p : c.event_id ≡ id = sym keyed ∙ (text_eq_iff row.event_id id).0 this in
                (claim_rows-Held worker until now id worker until cs u later plain k'
                  (rw p (claimed-Held row id t free))).0
            | inr that ↦ returned-Held id cs u k' (rw (same, that) at r)
          ])
    ]
  ]

-- The call leaves this lease alone: it comes before the lease ends, and is no acknowledgement or
-- release of the event by the worker that holds it.
abbrev pub IsQuiet : Text → Text → ℕ → Call → Type 0
IsQuiet id worker until (enqueues byte_length j key topic aggregate payload now) = Unit
IsQuiet id worker until (claims other limit lease now) = now < until
IsQuiet id worker until (acknowledges j other now) = (j ≢ id) ⊎ (other ≢ worker)
IsQuiet id worker until (releases j other retry_at now) = (j ≢ id) ⊎ (other ≢ worker)

module _ (id worker : Text) (until : ℕ) (plain : until ≤ last_plain_instant) where
  insert-Held :
      (j : Text) (row : OutboxEvent) (t : OutboxTable)
      → j ≢ id
      → Held id worker until t
      → Held id worker until (insert j row t)
  insert-Held j row t ne h = record {
    row = h.row;
    stored = lookup-insert_ne j id row t ne ∙ h.stored;
    claimant = h.claimant;
    lease = h.lease;
    undelivered = h.undelivered;
  }

  -- A row that another worker may change is not this one.
  not_theirs :
      (j other : Text) (now : ℕ) (row : OutboxEvent) (t : OutboxTable)
      → (j ≢ id) ⊎ (other ≢ worker)
      → Held id worker until t
      → lookup j t ≡ some row
      → is_lease_of other now row ≡ true
      → j ≢ id
  not_theirs j other now row t (inl ne) h found mine = ne
  not_theirs j other now row t (inr ne) h found mine = λ e.
      ground
        (arith, h.stored, h.claimant, text_eq_iff worker other, ap (λ (k : Text). lookup k t) e)

  change-Held :
      (j other : Text) (now : ℕ) (row new : OutboxEvent) (t : OutboxTable)
      → new.event_id ≡ row.event_id
      → (j ≢ id) ⊎ (other ≢ worker)
      → lookup j t ≡ some row
      → is_lease_of other now row ≡ true
      → IsKeyed t × Held id worker until t
      → IsKeyed (insert j new t) × Held id worker until (insert j new t)
  change-Held j other now row new t same quiet found mine (k, h) = (
    insert-IsKeyed j new t (same ∙ keyed-row j row t k found) k,
    insert-Held j new t (not_theirs j other now row t quiet h found mine) h,
  )

  claim-Held :
      (other : Text) (limit lease now : ℕ) (t : OutboxTable)
      → now < until
      → IsKeyed t × Held id worker until t
      → let t' = (claim_outbox other limit lease now t).1 in IsKeyed t' × Held id worker until t'
  unfolding claim_selected
  claim-Held other limit lease now t alive (k, h) = elim (claim_cases other limit lease now t) [
    | inl same ↦ rw same (k, h)
    | inr (selected, long) ↦
        let rows = candidates now limit t in
        rw selected (
          claim_rows-IsKeyed other (now + lease) now rows t k,
          (claim_rows-Held other (now + lease) now id worker until rows t alive plain k h).0,
        )
  ]

  after-Held :
      (c : Call) (t : OutboxTable)
      → IsQuiet id worker until c
      → IsKeyed t × Held id worker until t
      → IsKeyed (after c t) × Held id worker until (after c t)
  after-Held (enqueues byte_length j key topic aggregate payload now) t q (k, h) =
      elim (enqueue_cases byte_length j key topic aggregate payload now t) [
        | inl same ↦ rw same (k, h)
        | inr (row, new, own, added) ↦
            let ne : j ≢ id = λ e. ground (arith, h.stored, ap (λ (x : Text). lookup x t) e) in
            rw added (insert-IsKeyed j row t own k, insert-Held j row t ne h)
      ]
  after-Held (claims other limit lease now) t q h = claim-Held other limit lease now t q h
  after-Held (acknowledges j other now) t q h = elim (acknowledge_cases j other now t) [
    | inl same ↦ rw same h
    | inr (row, found, mine, changed) ↦
        rw changed (change-Held j other now row (delivered now row) t refl q found mine h)
  ]
  after-Held (releases j other retry_at now) t q h = elim (release_cases j other retry_at now t) [
    | inl same ↦ rw same h
    | inr (row, found, mine, changed) ↦
        rw changed (change-Held j other now row (released retry_at row) t refl q found mine h)
  ]

  run-Held :
      (cs : List Call) (t : OutboxTable)
      → All (IsQuiet id worker until) cs
      → IsKeyed t × Held id worker until t
      → IsKeyed (run cs t) × Held id worker until (run cs t)
  run-Held [] t q h = h
  run-Held (c ∷ cs) t q h = run-Held cs (after c t) q.1 (after-Held c t q.0 h)

  Held-returns :
      (other : Text) (limit lease now : ℕ) (t t' : OutboxTable) (events : List OutboxEvent)
      → now < until
      → IsKeyed t × Held id worker until t
      → claim_outbox other limit lease now t ≡ (ok events, t')
      → returns id events ≡ false
  Held-returns other limit lease now t t' events alive (k, h) claimed_ok =
      let c = claim_ok other limit lease now t t' events claimed_ok in
      rw c.0
        (claim_rows-Held other (now + lease) now id worker until (candidates now limit t) t alive
          plain k h).1

-- Until the end of the lease under which a claim returned an event, if that end is by the year
-- 9999, no other claim returns that event, whatever calls come between, provided that they claim
-- before the end of the lease, and acknowledge or release the event, if at all, for another
-- worker.
pub lease_excludes :
    (worker other id : Text) (limit lease now limit' lease' later : ℕ)
    (events others : List OutboxEvent) (t t' u : OutboxTable) (cs : List Call)
    → IsKeyed t
    → claim_outbox worker limit lease now t ≡ (ok events, t')
    → now + lease ≤ last_plain_instant
    → returns id events ≡ true
    → All (IsQuiet id worker (now + lease)) cs
    → later < now + lease
    → claim_outbox other limit' lease' later (run cs t') ≡ (ok others, u)
    → returns id others ≡ false
lease_excludes worker other id limit lease now limit' lease' later events others t t' u cs k first
      plain mine quiet soon second =
    let c = claim_ok worker limit lease now t t' events first in
    let rows = candidates now limit t in
    let alive : now < now + lease = omega (arith, c.2) in
    let held = returned-Held worker (now + lease) now alive plain id rows t k (rw c.0 at mine) in
    let keyed = claim_rows-IsKeyed worker (now + lease) now rows t k in
    Held-returns id worker (now + lease) plain other limit' lease' later (run cs t') u others soon
      (run-Held id worker (now + lease) plain cs t' quiet (rw c.1 (keyed, held))) second
