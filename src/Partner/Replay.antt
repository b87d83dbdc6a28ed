-- ===== src/Partner/Replay.antt =====
-- packages/partner-transport/signing.ts: requests that come again.
use contactless_airlock_lab.Prelude.{
  ◌≡◌, ◌≢◌, refl, ap, ◌∙◌, ℕ, ◌+◌, ◌<◌, Bool, true, false, Option, none, some, List, [], ◌∷◌, Text,
  arith, All, ◌==◌, text_Eq, lookup, insert, has, lookup-insert_self, lookup-insert_ne, Bool-cases,
  Option-cases, ◌⊎◌, inl, inr, Result, ok, err, first_failure,
}
use contactless_airlock_lab.Partner.{
  PartnerError, Digests, Delivery, ReplayStore, Verified, Headers, live, consume_once, failures,
  replay_key, sent_at, window, if_consumed, verify_partner_webhook, header,
}

-- A verification: how keys are resolved at that time, and what is verified.
abbrev pub Call : Type 0
Call = (Text → Option (List ℕ)) × Delivery

abbrev pub is_accepted : Result PartnerError Verified → Bool
is_accepted (ok v) = true
is_accepted (err e) = false

lookup-live :
    (key : Text) (expiry now : ℕ) (store : ReplayStore)
    → lookup key store ≡ some expiry
    → now < expiry
    → lookup key (live now store) ≡ some expiry
unfolding lookup live
lookup-live key expiry now [] h alive = absurd (ground (arith, h))
lookup-live key expiry now ((j, e) ∷ rest) h alive = elim (Bool-cases (j == key)) [
  | inl this ↦ ground (arith, this, h, alive)
  | inr other ↦
      ground
        (arith, other, h, alive, lookup-live key expiry now rest (ground (arith, other, h)) alive)
]

module _ (d : Digests) where
  abbrev pub run : List Call → ReplayStore → ReplayStore
  run [] store = store
  run ((resolve_key, r) ∷ calls) store = run calls (verify_partner_webhook d resolve_key r store).1

  -- A verification that passes the guards is decided by the store.
  pub verify_cases :
      (resolve_key : Text → Option (List ℕ)) (r : Delivery) (store : ReplayStore)
      → ((e : PartnerError) × (verify_partner_webhook d resolve_key r store ≡ (err e, store)))
        ⊎ (verify_partner_webhook d resolve_key r store
            ≡ if_consumed r.headers
                (consume_once (replay_key r.headers) (sent_at r + window r) r.now store))
  unfolding verify_partner_webhook
  verify_cases resolve_key r store =
      elim (Option-cases (first_failure (failures d resolve_key r))) [
        | inr (e, fails) ↦ inl (e, ground (arith, fails))
        | inl passes ↦ inr (ground (arith, passes))
      ]

  pub consume_cases :
      (h : Headers) (key : Text) (expires_at now : ℕ) (store : ReplayStore)
      → ((v : Verified) × (lookup key (live now store) ≡ none)
          × (if_consumed h (consume_once key expires_at now store)
              ≡ (ok v, insert key expires_at (live now store))))
        ⊎ ((has key (live now store) ≡ true)
            × (if_consumed h (consume_once key expires_at now store)
                ≡ (err PartnerError.replay_detected, live now store)))
  unfolding consume_once
  consume_cases h key expires_at now store = elim (Option-cases (lookup key (live now store))) [
    | inl missing ↦ inl (
      record { key_id = header h.key_id; idempotency_key = header h.idempotency_key },
      missing,
      ground (arith, missing),
    )
    | inr (e, found) ↦ inr (ground (arith, found), ground (arith, found))
  ]

  verify-keeps :
      (resolve_key : Text → Option (List ℕ)) (r : Delivery) (key : Text) (expiry : ℕ)
      (store : ReplayStore)
      → lookup key store ≡ some expiry
      → r.now < expiry
      → lookup key (verify_partner_webhook d resolve_key r store).1 ≡ some expiry
  verify-keeps resolve_key r key expiry store h alive =
      let kept = lookup-live key expiry r.now store h alive in
      elim (verify_cases resolve_key r store) [
        | inl (e, same) ↦ rw same h
        | inr decided ↦
            elim (consume_cases r.headers (replay_key r.headers) (sent_at r + window r) r.now
              store) [
                | inr (found, refused) ↦ rw (decided, refused) kept
                | inl (v, missing, taken) ↦
                    let ne : replay_key r.headers ≢ key = λ e.
                      ground
                        (arith, kept, missing, ap (λ (x : Text). lookup x (live r.now store)) e) in
                    rw (decided, taken)
                      (lookup-insert_ne (replay_key r.headers) key (sent_at r + window r)
                          (live r.now store) ne
                        ∙ kept)
              ]
      ]

  run-keeps :
      (calls : List Call) (key : Text) (expiry : ℕ) (store : ReplayStore)
      → All (λ (c : Call). c.1.now < expiry) calls
      → lookup key store ≡ some expiry
      → lookup key (run calls store) ≡ some expiry
  run-keeps [] key expiry store soon h = h
  run-keeps ((resolve_key, r) ∷ calls) key expiry store (now, soon) h =
      run-keeps calls key expiry (verify_partner_webhook d resolve_key r store).1 soon
        (verify-keeps resolve_key r key expiry store h now)

  pub accepted_stored :
      (resolve_key : Text → Option (List ℕ)) (r : Delivery) (v : Verified)
      (store after : ReplayStore)
      → verify_partner_webhook d resolve_key r store ≡ (ok v, after)
      → after ≡ insert (replay_key r.headers) (sent_at r + window r) (live r.now store)
  accepted_stored resolve_key r v store after h = elim (verify_cases resolve_key r store) [
    | inl (e, same) ↦ absurd (ground (arith, h, same))
    | inr decided ↦
        elim (consume_cases r.headers (replay_key r.headers) (sent_at r + window r) r.now store) [
          | inr (found, refused) ↦ absurd (ground (arith, h, decided, refused))
          | inl (w, missing, taken) ↦ ground (arith, h, decided, taken)
        ]
  ]

  stored_refused :
      (resolve_key : Text → Option (List ℕ)) (r : Delivery) (expiry : ℕ) (store : ReplayStore)
      → lookup (replay_key r.headers) store ≡ some expiry
      → r.now < expiry
      → is_accepted (verify_partner_webhook d resolve_key r store).0 ≡ false
  stored_refused resolve_key r expiry store h alive = elim (verify_cases resolve_key r store) [
    | inl (e, same) ↦ rw same refl
    | inr decided ↦
        elim (consume_cases r.headers (replay_key r.headers) (sent_at r + window r) r.now store) [
          | inr (found, refused) ↦ rw (decided, refused) refl
          | inl (w, missing, taken) ↦ absurd (
              ground
                (arith, missing, lookup-live (replay_key r.headers) expiry r.now store h alive))
        ]
  ]

  -- After a request was accepted, no request whose key id and nonce make the same replay key is
  -- accepted before the end of the window of the first, which is its timestamp and its window
  -- together, whatever requests are verified before that instant.
  pub replay_refused :
      (resolve_key resolve_later : Text → Option (List ℕ)) (r again : Delivery) (v : Verified)
      (store after : ReplayStore) (calls : List Call)
      → verify_partner_webhook d resolve_key r store ≡ (ok v, after)
      → replay_key again.headers ≡ replay_key r.headers
      → All (λ (c : Call). c.1.now < sent_at r + window r) calls
      → again.now < sent_at r + window r
      → is_accepted (verify_partner_webhook d resolve_later again (run calls after)).0 ≡ false
  replay_refused resolve_key resolve_later r again v store after calls first same soon alive =
      let expiry = sent_at r + window r in
      let stored : lookup (replay_key r.headers) after ≡ some expiry =
        rw (accepted_stored resolve_key r v store after first)
          (lookup-insert_self (replay_key r.headers) expiry (live r.now store)) in
      stored_refused resolve_later again expiry (run calls after)
        (rw same (run-keeps calls (replay_key r.headers) expiry after soon stored)) alive
