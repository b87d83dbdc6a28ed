-- ===== src/Storage/Outbox/Progress.antt =====
-- packages/storage/durableStore.ts: an outbox event that is due.
use contactless_airlock_lab.Prelude.{
  ◌≡◌, refl, ap, ◌∙◌, ℕ, zero, suc, ◌+◌, ◌≤◌, Bool, true, false, ◌||◌, some, List, [], ◌∷◌, Text,
  arith, keep, values, length, ok, text_Eq, text_eq_iff, lookup, insert, lookup-insert, Bool-cases,
  Option-cases, inl, inr, ◌==◌,
}
use contactless_airlock_lab.Storage.{OutboxEvent, OutboxTable}
use contactless_airlock_lab.Storage.Outbox.{
  last_plain_instant, is_bounded, is_claimable, is_updatable, claimed, claim_rows, claim_selected,
  claim_outbox, candidates, place, sort, take,
}
use contactless_airlock_lab.Storage.Outbox.Leases.{
  IsKeyed, returns, Held, keyed-row, insert-IsKeyed, claim_missing, claim_skipped, claim_taken,
}
use contactless_airlock_lab.Storage.Outbox.Steps.{claim_passes}
use contactless_airlock_lab.Storage.Outbox.Exclusion.{returned-Held}

returns-place :
    (id : Text) (e : OutboxEvent) (es : List OutboxEvent)
    → returns id (place e es) ≡ (e.event_id == id || returns id es)
unfolding place
returns-place id e [] = refl
returns-place id e (x ∷ xs) = ground (arith, returns-place id e xs)

returns-sort : (id : Text) (es : List OutboxEvent) → returns id (sort es) ≡ returns id es
unfolding sort
returns-sort id [] = refl
returns-sort id (e ∷ es) = ground (arith, returns-place id e (sort es), returns-sort id es)

length-place : (e : OutboxEvent) (es : List OutboxEvent) → length (place e es) ≡ suc (length es)
unfolding place
length-place e [] = refl
length-place e (x ∷ xs) = ground (arith, length-place e xs)

length-sort : (es : List OutboxEvent) → length (sort es) ≡ length es
unfolding sort
length-sort [] = refl
length-sort (e ∷ es) = ground (arith, length-place e (sort es), length-sort es)

take_all : (n : ℕ) (es : List OutboxEvent) → length es ≤ n → take n es ≡ es
unfolding take
take_all zero [] h = refl
take_all zero (e ∷ es) h = absurd (omega arith)
take_all (suc n) [] h = refl
take_all (suc n) (e ∷ es) h = ap (λ (xs : List OutboxEvent). e ∷ xs) (take_all n es (omega arith))

-- A row that passes a test is among the rows that are kept.
returns-keep :
    (id : Text) (row : OutboxEvent) (test : OutboxEvent → Bool) (t : OutboxTable)
    → lookup id t ≡ some row
    → row.event_id ≡ id
    → test row ≡ true
    → returns id (keep test (values t)) ≡ true
unfolding lookup
returns-keep id row test [] h own yes' = absurd (ground arith)
returns-keep id row test ((j, e) ∷ t) h own yes' =
    ground (arith, returns-keep id row test t, text_eq_iff row.event_id id, text_eq_iff j id)

returned_some : (id : Text) (es : List OutboxEvent) → returns id es ≡ true → 1 ≤ length es
returned_some id [] h = absurd (ground arith)
returned_some id (e ∷ es) h = omega arith

due-candidates :
    (id : Text) (row : OutboxEvent) (now limit : ℕ) (t : OutboxTable)
    → IsKeyed t
    → lookup id t ≡ some row
    → is_claimable now row ≡ true
    → length (keep (is_claimable now) (values t)) ≤ limit
    → returns id (candidates now limit t) ≡ true
unfolding candidates
due-candidates id row now limit t k h due few =
    let es = keep (is_claimable now) (values t) in
    rw (take_all limit (sort es) (omega (arith, length-sort es)))
      (returns-sort id es ∙ returns-keep id row (is_claimable now) t h (keyed-row id row t k h) due)

module _ (worker : Text) (until now : ℕ) where
  -- A selected row that the update takes is returned.
  selected_returned :
      (id : Text) (free : OutboxEvent) (cs : List OutboxEvent) (t : OutboxTable)
      → IsKeyed t
      → lookup id t ≡ some free
      → is_updatable now free ≡ true
      → returns id cs ≡ true
      → returns id (claim_rows worker until now cs t).0 ≡ true
  selected_returned id free [] t k h u r = absurd (ground arith)
  selected_returned id free (c ∷ cs) t k h u r = elim (Bool-cases (c.event_id == id)) [
    | inl this ↦
        let p : c.event_id ≡ id = (text_eq_iff c.event_id id).0 this in
        let found : lookup c.event_id t ≡ some free = ap (λ (x : Text). lookup x t) p ∙ h in
        let own : (free.event_id == id) ≡ true =
          (text_eq_iff free.event_id id).1 (keyed-row id free t k h) in
        rw (claim_taken worker until now c cs free t found u, own) refl
    | inr that ↦ elim (Option-cases (lookup c.event_id t)) [
      | inl missing ↦
          rw (claim_missing worker until now c cs t missing)
            (selected_returned id free cs t k h u (rw that at r))
      | inr (row, found) ↦ elim (Bool-cases (is_updatable now row)) [
        | inr fixed ↦
            rw (claim_skipped worker until now c cs row t found fixed)
              (selected_returned id free cs t k h u (rw that at r))
        | inl takes ↦
            let new = claimed worker until row in
            let keyed = keyed-row c.event_id row t k found in
            let rest =
              selected_returned id free cs (insert c.event_id new t)
                (insert-IsKeyed c.event_id new t keyed k)
                (rw (lookup-insert c.event_id id new t, that) h) u (rw that at r) in
            let other : (row.event_id == id) ≡ false = rw keyed that in
            rw (claim_taken worker until now c cs row t found takes, other) rest
      ]
    ]
  ]

-- If an event is claimable and there are no more claimable events than the limit, a claim with a
-- valid worker id and limit, and a lease of at least a second that ends by the year 9999, returns;
-- the event is among what it returns, and it stands under the lease of that worker until the
-- instant of the claim and the lease together.
pub due_is_claimed :
    (worker id : Text) (limit lease now : ℕ) (row : OutboxEvent) (t : OutboxTable)
    → IsKeyed t
    → lookup id t ≡ some row
    → is_claimable now row ≡ true
    → length (keep (is_claimable now) (values t)) ≤ limit
    → is_bounded 128 worker ≡ true
    → limit ≤ 1000
    → 1000 ≤ lease
    → now + lease ≤ last_plain_instant
    → (events : List OutboxEvent) × ((claim_outbox worker limit lease now t).0 ≡ ok events)
      × (returns id events ≡ true)
      × Held id worker (now + lease) (claim_outbox worker limit lease now t).1
unfolding claim_selected
due_is_claimed worker id limit lease now row t k h due few bounded small long safe =
    let rows = candidates now limit t in
    let chosen = due-candidates id row now limit t k h due few in
    let back =
      selected_returned worker (now + lease) now id row rows t k h (ground (arith, due)) chosen in
    let held = returned-Held worker (now + lease) now (omega (arith, long)) safe id rows t k back in
    let due_rows = keep (is_claimable now) (values t) in
    let one =
      returned_some id due_rows
        (returns-keep id row (is_claimable now) t h (keyed-row id row t k h) due) in
    rw (claim_passes worker limit lease now t bounded (omega (arith, one, few)) small long safe)
      ((claim_rows worker (now + lease) now rows t).0, refl, back, held)
