-- ===== src/Partner/Dispatcher/Answered.antt =====
-- packages/partner-transport/dispatcher.ts: what stands behind an acknowledgement.
use contactless_airlock_lab.Prelude.{
  ◌≡◌, ◌≢◌, refl, ◌∙◌, ℕ, ◌+◌, Bool, true, none, some, List, [], ◌∷◌, ◌++◌, Text, arith, any, ◌==◌,
  text_Eq, eq_refl, lookup, insert, lookup-insert, lookup-insert_ne, Bool-cases, Option-cases, inl,
  inr, Result, ok, err, Exec, Keeps,
}
use contactless_airlock_lab.Storage.{OutboxEvent, OutboxTable, StorageError}
use contactless_airlock_lab.Storage.Outbox.{
  is_updatable, claimed, claim_rows, claim_selected, claim_outbox, candidates, acknowledge_outbox,
  release_outbox, released, delivered,
}
use contactless_airlock_lab.Storage.Outbox.Leases.{claim_missing, claim_skipped, claim_taken}
use contactless_airlock_lab.Storage.Outbox.Steps.{claim_cases, acknowledge_cases, release_cases}
use contactless_airlock_lab.Partner.Dispatcher.{
  Failure, Attempt, Dispatcher, is_success, Op, from_source, ask, handled, recover,
}

-- An event of the outbox that is not delivered.
pub record Waits (id : Text) (t : OutboxTable) : Type 0 where
  pub row : OutboxEvent
  pub stored : lookup id t ≡ some row
  pub undelivered : row.delivered_at ≡ none

pub insert-Waits :
    (id j : Text) (row : OutboxEvent) (t : OutboxTable)
    → row.delivered_at ≡ none
    → Waits id t
    → Waits id (insert j row t)
insert-Waits id j row t free w = elim (Bool-cases (j == id)) [
  | inl this ↦ record {
    row = row;
    stored = rw (lookup-insert j id row t, this) refl;
    undelivered = free;
  }
  | inr other ↦ record {
    row = w.row;
    stored = rw (lookup-insert j id row t, other) w.stored;
    undelivered = w.undelivered;
  }
]

pub release-Waits :
    (id j worker : Text) (retry_at now : ℕ) (t : OutboxTable)
    → Waits id t
    → Waits id (release_outbox j worker retry_at now t).1
release-Waits id j worker retry_at now t w = elim (release_cases j worker retry_at now t) [
  | inl same ↦ rw same w
  | inr (row, found, mine, changed) ↦
      rw changed (insert-Waits id j (released retry_at row) t (ground (arith, mine)) w)
]

pub acknowledge-Waits :
    (id j worker : Text) (now : ℕ) (t : OutboxTable)
    → j ≢ id
    → Waits id t
    → Waits id (acknowledge_outbox j worker now t).1
acknowledge-Waits id j worker now t ne w = elim (acknowledge_cases j worker now t) [
  | inl same ↦ rw same w
  | inr (row, found, mine, changed) ↦ rw changed (record {
    row = w.row;
    stored = lookup-insert_ne j id (delivered now row) t ne ∙ w.stored;
    undelivered = w.undelivered;
  })
]

claim_rows-Waits :
    (id worker : Text) (until now : ℕ) (cs : List OutboxEvent) (t : OutboxTable)
    → Waits id t
    → Waits id (claim_rows worker until now cs t).1
unfolding claim_rows
claim_rows-Waits id worker until now [] t w = w
claim_rows-Waits id worker until now (c ∷ cs) t w = elim (Option-cases (lookup c.event_id t)) [
  | inl missing ↦
      rw (claim_missing worker until now c cs t missing)
        (claim_rows-Waits id worker until now cs t w)
  | inr (row, found) ↦ elim (Bool-cases (is_updatable now row)) [
    | inr fixed ↦
        rw (claim_skipped worker until now c cs row t found fixed)
          (claim_rows-Waits id worker until now cs t w)
    | inl free ↦ rw (claim_taken worker until now c cs row t found free) (
        claim_rows-Waits id worker until now cs (insert c.event_id (claimed worker until row) t)
          (insert-Waits id c.event_id (claimed worker until row) t (ground (arith, free)) w))
  ]
]

pub claim-Waits :
    (id worker : Text) (limit lease now : ℕ) (t : OutboxTable)
    → Waits id t
    → Waits id (claim_outbox worker limit lease now t).1
unfolding claim_selected
claim-Waits id worker limit lease now t w = elim (claim_cases worker limit lease now t) [
  | inl same ↦ rw same w
  | inr (selected, long) ↦
      rw selected (claim_rows-Waits id worker (now + lease) now (candidates now limit t) t w)
]

abbrev pub is_buried : Text → List OutboxEvent → Bool
is_buried id letters = any (λ e. e.event_id == id) letters

pub buried_more :
    (id : Text) (es fs : List OutboxEvent) → is_buried id es ≡ true → is_buried id (es ++ fs) ≡ true
buried_more id [] fs h = absurd (ground (arith, h))
buried_more id (e ∷ es) fs h = ground (arith, h, buried_more id es fs)

pub buried_last :
    (e : OutboxEvent) (es : List OutboxEvent) → is_buried e.event_id (es ++ e ∷ []) ≡ true
buried_last e [] = ground (arith, eq_refl e.event_id)
buried_last e (f ∷ es) = ground (arith, buried_last e es)

module _ (attempt : OutboxEvent → Attempt) (id : Text) where
  -- The event waits in the outbox, or the partner answered it with a success, or the sink has it.
  pub data IsFine (s : Dispatcher OutboxTable) : Type 0 where
    waits : Waits id s.source → IsFine s
    answered :
        (e : OutboxEvent) → e.event_id ≡ id → is_success (attempt e).response ≡ true → IsFine s
    buried : is_buried id s.dead_letters ≡ true → IsFine s

  -- A change of the source by which a waiting event waits on.
  pub source-IsFine :
      (s : Dispatcher OutboxTable) (t : OutboxTable)
      → (Waits id s.source → Waits id t)
      → IsFine s
      → IsFine (record s { source = t })
  source-IsFine s t keeps (waits w) = waits (keeps w)
  source-IsFine s t keeps (answered e same success) = answered e same success
  source-IsFine s t keeps (buried h) = buried h

  pub ask_state :
      {A : Type 0} (m : Exec StorageError OutboxTable A) (s : Dispatcher OutboxTable)
      → (ask m s).1 ≡ record s { source = (m s.source).1 }
  unfolding ask
  ask_state m s = from_state s (m s.source)
    where
      from_state :
          {A : Type 0} (s : Dispatcher OutboxTable) (p : Result StorageError A × OutboxTable)
          → (from_source s p).1 ≡ record s { source = p.1 }
      from_state s (ok a, t) = refl
      from_state s (err e, t) = refl

  pub ask-Keeps :
      {A : Type 0} (m : Exec StorageError OutboxTable A)
      → ((t : OutboxTable) → Waits id t → Waits id (m t).1)
      → Keeps IsFine (ask m)
  ask-Keeps m keeps = record {
    at = λ s h. rw (ask_state m s) (source-IsFine s (m s.source).1 (keeps s.source) h);
  }

  pub recover-Keeps :
      {A : Type 0} (m : Op OutboxTable A) (handler : Failure → Op OutboxTable A)
      → Keeps IsFine m
      → ((e : Failure) → Keeps IsFine (handler e))
      → Keeps IsFine (recover m handler)
  unfolding recover
  recover-Keeps {A = A} m handler k kh = record { at = λ s h. handled_fine (m s) (k.at s h) }
    where
      handled_fine :
          (p : Result Failure A × Dispatcher OutboxTable)
          → IsFine p.1
          → IsFine (handled handler p).1
      handled_fine (ok a, s) h = h
      handled_fine (err e, s) h = (kh e).at s h
