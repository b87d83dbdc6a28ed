-- ===== src/Storage/Outbox/Leases.antt =====
-- packages/storage/durableStore.ts: the lease of a claimed outbox event under further calls.
use contactless_airlock_lab.Prelude.{
  ◌≤◌, ◌≡◌, ◌≢◌, refl, sym, ap, ◌∙◌, ℕ, ◌<◌, Bool, true, false, Option, none, some, List, [], ◌∷◌,
  Text, arith, All, All-insert, All-lookup, any, text_Eq, text_eq_iff, lookup, insert,
  lookup-insert_ne, Bool-cases, Option-cases, inl, inr, ◌==◌,
}
use contactless_airlock_lab.Storage.{OutboxEvent, OutboxTable}
use contactless_airlock_lab.Storage.Outbox.{
  last_plain_instant, iso_ltb, is_updatable, claimed, claim_rows, claim_outbox, acknowledge_outbox,
  release_outbox, enqueue,
}

-- The calls that change the outbox.
pub data Call : Type 0 where
  enqueues : (Text → ℕ) → Text → Text → Text → Text → Option Text → ℕ → Call
  claims : Text → ℕ → ℕ → ℕ → Call
  acknowledges : Text → Text → ℕ → Call
  releases : Text → Text → ℕ → ℕ → Call

-- The table that a call leaves; an error is caught by the caller.
abbrev pub after : Call → OutboxTable → OutboxTable
after (enqueues byte_length id key topic aggregate payload now) t =
    (enqueue byte_length id key topic aggregate payload now t).1
after (claims worker limit lease now) t = (claim_outbox worker limit lease now t).1
after (acknowledges id worker now) t = (acknowledge_outbox id worker now t).1
after (releases id worker retry_at now) t = (release_outbox id worker retry_at now t).1

abbrev pub run : List Call → OutboxTable → OutboxTable
run [] t = t
run (c ∷ cs) t = run cs (after c t)

-- Every row stands under its own id.
abbrev pub IsKeyed : OutboxTable → Type 0
IsKeyed t = All (λ (p : Text × OutboxEvent). p.1.event_id ≡ p.0) t

abbrev pub returns : Text → List OutboxEvent → Bool
returns id events = any (λ e. e.event_id == id) events

-- A worker's lease of an undelivered event.
pub record Held (id worker : Text) (until : ℕ) (t : OutboxTable) : Type 0 where
  pub row : OutboxEvent
  pub stored : lookup id t ≡ some row
  pub claimant : row.claimed_by ≡ some worker
  pub lease : row.claimed_until ≡ some until
  pub undelivered : row.delivered_at ≡ none

-- Before the year 10000 the ISO texts are in the order of the instants.
pub plain_order : (a b : ℕ) → a < b → b ≤ last_plain_instant → iso_ltb a b ≡ true
unfolding iso_ltb
plain_order a b h plain = ground (arith, h, plain)

pub keyed-row :
    (id : Text) (row : OutboxEvent) (t : OutboxTable)
    → IsKeyed t
    → lookup id t ≡ some row
    → row.event_id ≡ id
keyed-row id row t k h = All-lookup (λ (p : Text × OutboxEvent). p.1.event_id ≡ p.0) id row t k h

pub insert-IsKeyed :
    (id : Text) (row : OutboxEvent) (t : OutboxTable)
    → row.event_id ≡ id
    → IsKeyed t
    → IsKeyed (insert id row t)
insert-IsKeyed id row t same k =
    All-insert (λ (p : Text × OutboxEvent). p.1.event_id ≡ p.0) id row t (λ j e. same ∙ sym e) k

module _ (worker : Text) (until now : ℕ) where
  -- The steps of the loop, by what the row is.
  pub claim_missing :
      (c : OutboxEvent) (cs : List OutboxEvent) (t : OutboxTable)
      → lookup c.event_id t ≡ none
      → claim_rows worker until now (c ∷ cs) t ≡ claim_rows worker until now cs t
  unfolding claim_rows
  claim_missing c cs t h = ground arith

  pub claim_skipped :
      (c : OutboxEvent) (cs : List OutboxEvent) (row : OutboxEvent) (t : OutboxTable)
      → lookup c.event_id t ≡ some row
      → is_updatable now row ≡ false
      → claim_rows worker until now (c ∷ cs) t ≡ claim_rows worker until now cs t
  unfolding claim_rows
  claim_skipped c cs row t h u = ground arith

  pub claim_taken :
      (c : OutboxEvent) (cs : List OutboxEvent) (row : OutboxEvent) (t : OutboxTable)
      → lookup c.event_id t ≡ some row
      → is_updatable now row ≡ true
      → let more =
          claim_rows worker until now cs (insert c.event_id (claimed worker until row) t) in
        claim_rows worker until now (c ∷ cs) t ≡ (claimed worker until row ∷ more.0, more.1)
  unfolding claim_rows
  claim_taken c cs row t h u = ground arith

  pub claim_rows-IsKeyed :
      (cs : List OutboxEvent) (t : OutboxTable)
      → IsKeyed t
      → IsKeyed (claim_rows worker until now cs t).1
  unfolding claim_rows
  claim_rows-IsKeyed [] t k = k
  claim_rows-IsKeyed (c ∷ cs) t k = elim (Option-cases (lookup c.event_id t)) [
    | inl missing ↦ rw (claim_missing c cs t missing) (claim_rows-IsKeyed cs t k)
    | inr (row, found) ↦ elim (Bool-cases (is_updatable now row)) [
      | inr fixed ↦ rw (claim_skipped c cs row t found fixed) (claim_rows-IsKeyed cs t k)
      | inl free ↦ rw (claim_taken c cs row t found free) (
          claim_rows-IsKeyed cs (insert c.event_id (claimed worker until row) t) (
            insert-IsKeyed c.event_id (claimed worker until row) t
              (keyed-row c.event_id row t k found) k))
    ]
  ]

  -- A row that the update does not take survives the loop, which does not return its event.
  pub claim_rows_fixed :
      (id : Text) (fixed : OutboxEvent) (cs : List OutboxEvent) (t : OutboxTable)
      → IsKeyed t
      → lookup id t ≡ some fixed
      → is_updatable now fixed ≡ false
      → (lookup id (claim_rows worker until now cs t).1 ≡ some fixed)
        × (returns id (claim_rows worker until now cs t).0 ≡ false)
  unfolding claim_rows
  claim_rows_fixed id fixed [] t k h f = (h, refl)
  claim_rows_fixed id fixed (c ∷ cs) t k h f = elim (Option-cases (lookup c.event_id t)) [
    | inl missing ↦ rw (claim_missing c cs t missing) (claim_rows_fixed id fixed cs t k h f)
    | inr (row, found) ↦ elim (Bool-cases (is_updatable now row)) [
      | inr kept ↦ rw (claim_skipped c cs row t found kept) (claim_rows_fixed id fixed cs t k h f)
      | inl free ↦
          let new = claimed worker until row in
          let keyed = keyed-row c.event_id row t k found in
          let ne : c.event_id ≢ id = λ e. ground (arith, ap (λ (x : Text). lookup x t) e) in
          let rest =
            claim_rows_fixed id fixed cs (insert c.event_id new t)
              (insert-IsKeyed c.event_id new t keyed k)
              (lookup-insert_ne c.event_id id new t ne ∙ h) f in
          let other : (row.event_id == id) ≡ false =
            ground (arith, ne, text_eq_iff row.event_id id) in
          rw (claim_taken c cs row t found free) (rest.0, rw other rest.1)
    ]
  ]

  -- So does an event under a lease that has not ended.
  pub claim_rows-Held :
      (id other : Text) (lease : ℕ) (cs : List OutboxEvent) (t : OutboxTable)
      → now < lease
      → lease ≤ last_plain_instant
      → IsKeyed t
      → Held id other lease t
      → Held id other lease (claim_rows worker until now cs t).1
        × (returns id (claim_rows worker until now cs t).0 ≡ false)
  claim_rows-Held id other lease cs t alive plain k h =
      let busy : is_updatable now h.row ≡ false =
        ground (arith, h.lease, plain_order now lease alive plain) in
      let kept = claim_rows_fixed id h.row cs t k h.stored busy in
      (
        record {
          row = h.row;
          stored = kept.0;
          claimant = h.claimant;
          lease = h.lease;
          undelivered = h.undelivered;
        },
        kept.1,
      )
