-- ===== src/Partner/Receipts.antt =====
-- packages/partner-transport/receiver.ts: webhooks with one idempotency key.
use contactless_airlock_lab.Prelude.{
  ◌≡◌, ◌≢◌, refl, sym, ap, ◌∙◌, ℕ, Bool, true, false, Option, none, some, List, [], ◌∷◌, Text,
  arith, ◌==◌, text_Eq, lookup, insert, lookup-insert_self, lookup-insert_ne, Bool-cases,
  Option-cases, ◌⊎◌, inl, inr, Result, ok, err, Exec,
}
use contactless_airlock_lab.Partner.{
  PartnerError, invalid_json, invalid_envelope, key_reused, Digests, Delivery, Headers, ReplayStore,
  Verified, header, if_consumed, verify_partner_webhook,
}
use contactless_airlock_lab.Partner.Replay.{Call, verify_cases}
use contactless_airlock_lab.Partner.Json.{Json}
use contactless_airlock_lab.Partner.Contract.{partner_envelope_failure}
use contactless_airlock_lab.Partner.Receiver.{
  duplicate, PartnerReceipt, Entry, Receiver, entry_key, new_receipt, keep_applied, run_once,
  receive_parsed, receive_verified, receive_partner_webhook,
}

-- An error, or a duplicate of what was answered.
abbrev pub IsRepeat : PartnerReceipt → Result PartnerError PartnerReceipt → Type 0
IsRepeat out (ok next) = (next.code ≡ duplicate) × (next.event_id ≡ out.event_id)
IsRepeat out (err e) = Unit

IsRepeat-same :
    (a b : PartnerReceipt) (p : Result PartnerError PartnerReceipt)
    → a.event_id ≡ b.event_id
    → IsRepeat a p
    → IsRepeat b p
IsRepeat-same a b (ok next) same (is, event) = (is, event ∙ same)
IsRepeat-same a b (err e) same h = tt

module _ {W : Type 0} (apply : Json → Exec PartnerError W (Unit {0})) where
  -- What a receipt may do with the entry of a key: nothing, replay what there is, or apply the work.
  data Outcome (key : Text) (s : Receiver W)
      : Result PartnerError PartnerReceipt × Receiver W → Type 0 where
    refused : (e : PartnerError) → Outcome key s (err e, s)
    replayed :
        (prior : Entry)
        → lookup key s.entries ≡ some prior
        → Outcome key s (ok (record prior.value { code = duplicate }), s)
    failed :
        (e : PartnerError) (world : W)
        → lookup key s.entries ≡ none
        → Outcome key s (err e, record s { world = world })
    applied :
        (entry : Entry) (world : W)
        → lookup key s.entries ≡ none
        → Outcome key s
            (ok entry.value, record s { entries = insert key entry s.entries; world = world })

  kept_outcome :
      (key request_hash : Text) (j : Json) (s : Receiver W)
      → lookup key s.entries ≡ none
      → (p : Result PartnerError (Unit {0}) × W)
      → Outcome key s (keep_applied key request_hash j s p)
  kept_outcome key request_hash j s missing (ok u, world) =
      applied (record { request_hash = request_hash; value = new_receipt j }) world missing
  kept_outcome key request_hash j s missing (err e, world) = failed e world missing

  run_outcome :
      (key request_hash : Text) (j : Json) (s : Receiver W)
      → Outcome key s (run_once apply key request_hash j (lookup key s.entries) s)
  unfolding run_once
  run_outcome key request_hash j s = elim (Option-cases (lookup key s.entries)) [
    | inr (prior, found) ↦ rw found (elim (Bool-cases (prior.request_hash == request_hash)) [
      | inl same ↦ rw same (replayed prior found)
      | inr other ↦ rw other (refused key_reused)
    ])
    | inl missing ↦ rw missing (kept_outcome key request_hash j s missing (apply j s.world))
  ]

  parsed_outcome :
      (key request_hash : Text) (o : Option Json) (s : Receiver W)
      → Outcome key s (receive_parsed apply key request_hash o s)
  unfolding receive_parsed
  parsed_outcome key request_hash none s = refused invalid_json
  parsed_outcome key request_hash (some j) s = elim (Option-cases (partner_envelope_failure j)) [
    | inr (message, fails) ↦ rw (fails, receive_parsed) (refused (invalid_envelope message))
    | inl passes ↦ rw (passes, receive_parsed) (run_outcome key request_hash j s)
  ]

  -- The entry of a key stands through every outcome, of whichever key.
  Outcome-keeps :
      (key other : Text) (entry : Entry) (s : Receiver W)
      (p : Result PartnerError PartnerReceipt × Receiver W)
      → Outcome other s p
      → lookup key s.entries ≡ some entry
      → lookup key p.1.entries ≡ some entry
  Outcome-keeps key other entry s _ (refused e) h = h
  Outcome-keeps key other entry s _ (replayed prior found) h = h
  Outcome-keeps key other entry s _ (failed e world missing) h = h
  Outcome-keeps key other entry s _ (applied new world missing) h =
      let ne : other ≢ key =
        λ e. ground (arith, h, missing, ap (λ (x : Text). lookup x s.entries) e) in
      lookup-insert_ne other key new s.entries ne ∙ h

  -- An outcome that returns leaves an entry of its key, with the event that it answers.
  Outcome-stored :
      (key : Text) (out : PartnerReceipt) (s : Receiver W)
      (p : Result PartnerError PartnerReceipt × Receiver W)
      → Outcome key s p
      → p.0 ≡ ok out
      → (entry : Entry) × (lookup key p.1.entries ≡ some entry)
        × (entry.value.event_id ≡ out.event_id)
  Outcome-stored key out s _ (refused e) h = absurd (ground (arith, h))
  Outcome-stored key out s _ (replayed prior found) h = (prior, found, ground (arith, h))
  Outcome-stored key out s _ (failed e world missing) h = absurd (ground (arith, h))
  Outcome-stored key out s _ (applied new world missing) h =
      (new, lookup-insert_self key new s.entries, ground (arith, h))

  -- Where there is an entry, the work is not applied, and an answer is a duplicate.
  Outcome-duplicate :
      (key : Text) (entry : Entry) (s : Receiver W)
      (p : Result PartnerError PartnerReceipt × Receiver W)
      → Outcome key s p
      → lookup key s.entries ≡ some entry
      → (p.1.world ≡ s.world) × IsRepeat entry.value p.0
  Outcome-duplicate key entry s _ (refused e) h = (refl, tt)
  Outcome-duplicate key entry s _ (replayed prior found) h =
      (refl, (refl, ground (arith, found, h)))
  Outcome-duplicate key entry s _ (failed e world missing) h = absurd (ground (arith, h, missing))
  Outcome-duplicate key entry s _ (applied new world missing) h =
      absurd (ground (arith, h, missing))

-- The key that the receiver looks an answer up by, as the headers have it.
abbrev pub entry_key_of : Headers → Text
entry_key_of h =
    entry_key (record { key_id = header h.key_id; idempotency_key = header h.idempotency_key })

consumed_headers :
    (h : Headers) (v : Verified) (p : Bool × ReplayStore) (after : ReplayStore)
    → if_consumed h p ≡ (ok v, after)
    → entry_key v ≡ entry_key_of h
consumed_headers h v (true, store) after q = ground (arith, q)
consumed_headers h v (false, store) after q = absurd (ground (arith, q))

verified_headers :
    (d : Digests) (resolve_key : Text → Option (List ℕ)) (r : Delivery) (v : Verified)
    (store after : ReplayStore)
    → verify_partner_webhook d resolve_key r store ≡ (ok v, after)
    → entry_key v ≡ entry_key_of r.headers
verified_headers d resolve_key r v store after h = elim (verify_cases d resolve_key r store) [
  | inl (e, same) ↦ absurd (ground (arith, h, same))
  | inr decided ↦ consumed_headers r.headers v _ after (sym decided ∙ h)
]

module _ {W : Type 0} (d : Digests) (parse : List ℕ → Option Json)
    (apply : Json → Exec PartnerError W (Unit {0})) where
  -- A request is refused by its verification, or it has an outcome under the key in its headers.
  verified_outcome :
      (r : Delivery) (s : Receiver W) (q : Result PartnerError Verified × ReplayStore)
      → ((v : Verified) → q.0 ≡ ok v → entry_key v ≡ entry_key_of r.headers)
      → ((e : PartnerError) × (receive_verified d parse apply r.body s q
            ≡ (err e, record s { replay = q.1 })))
        ⊎ Outcome apply
            (entry_key_of r.headers)
            (record s { replay = q.1 })
            (receive_verified d parse apply r.body s q)
  unfolding receive_verified
  verified_outcome r s (err e, replay) own = inl (e, refl)
  verified_outcome r s (ok v, replay) own = inr (
      rw (← own v refl) (
        parsed_outcome apply (entry_key v) (d.sha256_hex r.body) (parse r.body)
          (record s { replay = replay })))

  received_outcome :
      (resolve_key : Text → Option (List ℕ)) (r : Delivery) (s : Receiver W)
      → let q = verify_partner_webhook d resolve_key r s.replay in
        ((e : PartnerError) × (receive_partner_webhook d parse apply resolve_key r s
            ≡ (err e, record s { replay = q.1 })))
        ⊎ Outcome apply
            (entry_key_of r.headers)
            (record s { replay = q.1 })
            (receive_partner_webhook d parse apply resolve_key r s)
  unfolding receive_partner_webhook
  received_outcome resolve_key r s =
      let q = verify_partner_webhook d resolve_key r s.replay in
      verified_outcome r s q
        (λ v is. verified_headers d resolve_key r v s.replay q.1 (ground (arith, is)))

  abbrev pub run : List Call → Receiver W → Receiver W
  run [] s = s
  run ((resolve_key, r) ∷ calls) s =
      run calls (receive_partner_webhook d parse apply resolve_key r s).1

  run-keeps_entry :
      (calls : List Call) (key : Text) (entry : Entry) (s : Receiver W)
      → lookup key s.entries ≡ some entry
      → lookup key (run calls s).entries ≡ some entry
  run-keeps_entry [] key entry s h = h
  run-keeps_entry ((resolve_key, r) ∷ calls) key entry s h =
      run-keeps_entry calls key entry (receive_partner_webhook d parse apply resolve_key r s).1
        (elim (received_outcome resolve_key r s) [
          | inl (e, same) ↦ rw same h
          | inr o ↦ Outcome-keeps apply key (entry_key_of r.headers) entry _ _ o h
        ])

  -- After a receipt was returned, whatever webhooks come between, another one with the same key id
  -- and idempotency key does not change the state of the caller, and is an error or a duplicate of
  -- the event that was answered.
  pub received_once :
      (resolve_key resolve_later : Text → Option (List ℕ)) (r again : Delivery)
      (out : PartnerReceipt) (s s' : Receiver W) (calls : List Call)
      → receive_partner_webhook d parse apply resolve_key r s ≡ (ok out, s')
      → entry_key_of again.headers ≡ entry_key_of r.headers
      → let u = run calls s' in
        let answer = receive_partner_webhook d parse apply resolve_later again u in
        (answer.1.world ≡ u.world) × IsRepeat out answer.0
  received_once resolve_key resolve_later r again out s s' calls first same =
      elim (received_outcome resolve_key r s) [
        | inl (e, fails) ↦ absurd (ground (arith, first, fails))
        | inr o ↦
            let (entry, stored, event) =
              Outcome-stored apply (entry_key_of r.headers) out _ _ o
                (ap (λ (x : Result PartnerError PartnerReceipt × Receiver W). x.0) first) in
            let kept =
              run-keeps_entry calls (entry_key_of r.headers) entry s' (rw first at stored) in
            elim (received_outcome resolve_later again (run calls s')) [
              | inl (e, fails) ↦ rw fails (refl, tt)
              | inr p ↦
                  let answer =
                    Outcome-duplicate apply (entry_key_of again.headers) entry _ _ p
                      (rw same kept) in
                  (answer.0, IsRepeat-same entry.value out _ event answer.1)
            ]
      ]
