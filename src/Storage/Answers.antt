-- ===== src/Storage/Answers.antt =====
-- packages/storage/durableStore.ts: the answer of an idempotent mutation under further calls.
use contactless_airlock_lab.Prelude.{
  ◌≡◌, ◌≢◌, refl, ap, ◌∙◌, ℕ, true, false, none, some, List, [], ◌∷◌, Text, arith, ok, text_Eq,
  text_eq_iff, lookup, insert, lookup-insert_self, lookup-insert_ne, Bool-cases, Option-cases,
  Result-cases, ◌⊎◌, inl, inr, ◌==◌, ◌>>=◌,
}
use contactless_airlock_lab.Storage.{
  IdempotencyRecord, DurableStore, Idempotent, Json, ScopedKey, scoped_key_Eq, Op, transaction,
  answer, answer_again, answer_first, run_idempotent,
}
use contactless_airlock_lab.Storage.Outbox.Leases
use contactless_airlock_lab.Storage.Records
use contactless_airlock_lab.Storage.Programs.{
  Program, perform, create-idempotency, swap-idempotency, perform-idempotency,
}

-- The calls of a store: those on records and on the outbox, and further mutations.
pub data Call (V : Type 0) : Type 0 where
  writes : Records.Call → Call V
  delivers : Leases.Call → Call V
  mutates : Text → Text → Text → Program V → ℕ → Call V

module _ {V : Type 0} (json : Json V) where
  -- The store that a call leaves; an error is caught by the caller.
  abbrev pub after : Call V → DurableStore → DurableStore
  after (writes c) s = Records.after c s
  after (delivers c) s = record s { outbox = Leases.after c s.outbox }
  after (mutates scope key hash program now) s =
      (run_idempotent json scope key hash (perform program) now s).1

  abbrev pub run : List (Call V) → DurableStore → DurableStore
  run [] s = s
  run (c ∷ cs) s = run cs (after c s)

module _ {V : Type 0} (json : Json V) (scope key : Text) where
  -- The stored answer of a request, and the value that it is parsed to.
  pub record Stored (hash : Text) (value : V) (s : DurableStore) : Type 0 where
    pub prior : IdempotencyRecord
    pub stored : lookup (scope, key) s.idempotency ≡ some prior
    pub same_hash : prior.request_hash ≡ hash
    pub read : json.parse prior.response ≡ some value

  replayed :
      (hash : Text) (value : V) (operation : Op V) (now : ℕ) (s : DurableStore)
      → Stored hash value s
      → run_idempotent json scope key hash operation now s
        ≡ (ok (record { replayed = true; value = value }), s)
  unfolding run_idempotent transaction answer answer_again ◌>>=◌
  replayed hash value operation now s p =
      ground (arith, p.stored, p.read, text_eq_iff p.prior.request_hash hash, p.same_hash)

  mutation_cases :
      (hash : Text) (p : Program V) (now : ℕ) (s : DurableStore)
      → ((run_idempotent json scope key hash (perform p) now s).1.idempotency ≡ s.idempotency)
        ⊎ ((new : IdempotencyRecord) × (lookup (scope, key) s.idempotency ≡ none)
            × ((run_idempotent json scope key hash (perform p) now s).1.idempotency
                ≡ insert (scope, key) new s.idempotency))
  unfolding run_idempotent transaction answer answer_again answer_first ◌>>=◌
  mutation_cases hash p now s = elim (Option-cases (lookup (scope, key) s.idempotency)) [
    | inr (prior, found) ↦ inl (elim (Bool-cases (prior.request_hash == hash)) [
      | inr other ↦ ground (arith, found, other)
      | inl same ↦ elim (Option-cases (json.parse prior.response)) [
        | inl none_read ↦ ground (arith, found, same, none_read)
        | inr (value, read) ↦ ground (arith, found, same, read)
      ]
    ])
    | inl missing ↦
        let still = perform-idempotency p s in
        elim (Result-cases (perform p s).0) [
          | inr (e, failed) ↦ inl (ground (arith, missing, failed))
          | inl (value, worked) ↦ elim (Option-cases (json.stringify value)) [
            | inl no_text ↦ inl (ground (arith, missing, worked, no_text))
            | inr (response, printed) ↦
                let new : IdempotencyRecord = record {
                  request_hash = hash;
                  response = response;
                  created_at = now;
                } in
                inr (new, missing, ground (arith, missing, worked, printed, still))
          ]
        ]
  ]

module _ {V : Type 0} (json : Json V) (scope key : Text) where
  after-kept :
      (prior : IdempotencyRecord) (c : Call V) (s : DurableStore)
      → lookup (scope, key) s.idempotency ≡ some prior
      → lookup (scope, key) (after json c s).idempotency ≡ some prior
  after-kept prior (writes (Records.creates id status value now)) s h =
      rw (create-idempotency id status value now s) h
  after-kept prior (writes (Records.swaps id version status next value now)) s h =
      rw (swap-idempotency id version status next value now s) h
  after-kept prior (delivers c) s h = h
  after-kept prior (mutates scope' key' hash p now) s h =
      elim (mutation_cases json scope' key' hash p now s) [
        | inl same ↦ rw same h
        | inr (new, missing, added) ↦
            let there : ScopedKey = (scope', key') in
            let here : ScopedKey = (scope, key) in
            let other : there ≢ here =
              λ e. ground (arith, h, missing, ap (λ (k : ScopedKey). lookup k s.idempotency) e) in
            rw added (lookup-insert_ne there here new s.idempotency other ∙ h)
      ]

  run-kept :
      (prior : IdempotencyRecord) (cs : List (Call V)) (s : DurableStore)
      → lookup (scope, key) s.idempotency ≡ some prior
      → lookup (scope, key) (run json cs s).idempotency ≡ some prior
  run-kept prior [] s h = h
  run-kept prior (c ∷ cs) s h = run-kept prior cs (after json c s) (after-kept prior c s h)

  -- What a later mutation returns: the value of a replay, or that of the stored text of a new answer.
  abbrev pub IsAnswer : Idempotent V → V → Type 0
  IsAnswer a value =
      ((a.replayed ≡ true) × (value ≡ a.value))
      ⊎ ((a.replayed ≡ false)
          × ((response : Text) × (json.stringify a.value ≡ some response)
              × (json.parse response ≡ some value)))

  answered-Stored :
      (hash : Text) (operation : Op V) (now : ℕ) (a : Idempotent V) (s s' : DurableStore)
      → ((value : V) (response : Text)
          → json.stringify value ≡ some response
          → (read : V) × (json.parse response ≡ some read))
      → run_idempotent json scope key hash operation now s ≡ (ok a, s')
      → (value : V) × Stored json scope key hash value s' × IsAnswer a value
  unfolding run_idempotent transaction answer answer_again answer_first ◌>>=◌
  answered-Stored hash operation now a s s' parses h =
      elim (Option-cases (lookup (scope, key) s.idempotency)) [
        | inr (prior, found) ↦ elim (Option-cases (json.parse prior.response)) [
          | inl unread ↦ absurd (ground (arith, h, found, unread))
          | inr (value, read) ↦ (
            value,
            record {
              prior = prior;
              stored = ground (arith, h, found, read);
              same_hash = ground (arith, h, found, text_eq_iff prior.request_hash hash);
              read = read;
            },
            inl (ground (arith, h, found, read), ground (arith, h, found, read)),
          )
        ]
        | inl missing ↦ elim (Result-cases (operation s).0) [
          | inr (e, failed) ↦ absurd (ground (arith, h, missing, failed))
          | inl (value, worked) ↦ elim (Option-cases (json.stringify value)) [
            | inl no_text ↦ absurd (ground (arith, h, missing, worked, no_text))
            | inr (response, printed) ↦
                let new : IdempotencyRecord = record {
                  request_hash = hash;
                  response = response;
                  created_at = now;
                } in
                let (read, parsed) = parses value response printed in
                let is : a.value ≡ value = ground (arith, h, missing, worked, printed) in
                (
                  read,
                  record {
                    prior = new;
                    stored = ground (
                      arith,
                      h,
                      missing,
                      worked,
                      printed,
                      lookup-insert_self (scope, key) new (operation s).1.idempotency,
                    );
                    same_hash = refl;
                    read = parsed;
                  },
                  inr (
                    ground (arith, h, missing, worked, printed),
                    (response, rw is printed, parsed),
                  ),
                )
          ]
        ]
      ]

  -- Where JSON.parse reads each text of JSON.stringify: after an idempotent mutation returned, and
  -- after any further writes of records, calls of the outbox and idempotent mutations, another one
  -- with its scope, key and request hash returns as a replay and changes nothing, whatever
  -- operation it brings. Its value is the one returned before if that was a replay, and otherwise
  -- the parsed text of the value returned before.
  pub idempotent_again :
      (hash : Text) (operation again : Op V) (now later : ℕ) (a : Idempotent V)
      (s s' : DurableStore) (cs : List (Call V))
      → ((value : V) (response : Text)
          → json.stringify value ≡ some response
          → (read : V) × (json.parse response ≡ some read))
      → run_idempotent json scope key hash operation now s ≡ (ok a, s')
      → (value : V) × IsAnswer a value
        × (run_idempotent json scope key hash again later (run json cs s')
            ≡ (ok (record { replayed = true; value = value }), run json cs s'))
  idempotent_again hash operation again now later a s s' cs parses h =
      let (value, p, is) = answered-Stored hash operation now a s s' parses h in
      let kept : Stored json scope key hash value (run json cs s') = record {
        prior = p.prior;
        stored = run-kept p.prior cs s' p.stored;
        same_hash = p.same_hash;
        read = p.read;
      } in
      (value, is, replayed json scope key hash value again later (run json cs s') kept)
