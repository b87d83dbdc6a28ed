-- ===== src/Challenges/Snapshots.antt =====
-- packages/state-machine/challengeStore.ts: snapshots, and the stores that `restore` accepts.
use contactless_airlock_lab.Prelude.{
  ℕ, ◌≤◌, ◌<◌, ◌≡◌, ◌≢◌, ◌⊎◌, inl, inr, refl, ap, ◌∙◌, Option, none, some, [], ◌∷◌, Text, text_Eq,
  lookup, insert, values, Result, ok, err, ◌>>=◌, arith, All, IsDistinct, insert-IsDistinct,
  insert_all, insert_all_rebuilds, All-insert, All-lookup, Fresh, Fresh-insert, Fresh-nil,
  no_failure, first_failure, Option-cases,
}
use contactless_airlock_lab.Protocol.{
  ChallengeBinding, SignedApproval, ChallengeStatus, ChallengeRecord, created, confirmed, expired,
  cancelled, Error,
}
use contactless_airlock_lab.Protocol.Canonical.{
  validate_binding, common_tests, or_else, canonicalize_binding,
}
use contactless_airlock_lab.Crypto.{Crypto}
use contactless_airlock_lab.Challenges.{
  ChallengeStore, CreateChallengeInput, new_binding, create, consume, cancel, snapshot,
  restore_record, restore_all, restored, restore, new_record,
}
use contactless_airlock_lab.Challenges.Consumption.{
  cancel_missing, consume_inv, consume-Refused, Refused, unchanged, expires,
}

-- A record that `restore` accepts.
pub record IsRestorable (r : ChallengeRecord) : Type 0 where
  pub valid : validate_binding r.binding ≡ none
  pub unused : r.status ≡ created → r.consumed_at ≡ none
  pub used : (r.status ≡ confirmed) ⊎ (r.status ≡ cancelled) → r.consumed_at ≢ none
  pub after_issuance : (t : ℕ) → r.consumed_at ≡ some t → r.binding.issued_at ≤ t

abbrev pub IsEntry : Text × ChallengeRecord → Type 0
IsEntry (id, r) = (id ≡ r.binding.challenge_id) × IsRestorable r

pub record IsSound (s : ChallengeStore) : Type 0 where
  pub distinct : IsDistinct s
  pub entries : All IsEntry s

left_none {ℓ} : {A : Type ℓ} (o p : Option A) → or_else o p ≡ none → o ≡ none
left_none none p h = refl
left_none (some a) p h = h

valid-order : (b : ChallengeBinding) → validate_binding b ≡ none → b.issued_at < b.expires_at
unfolding validate_binding
valid-order b h =
    let tests = no_failure (common_tests b) (left_none (first_failure (common_tests b)) _ h) in
    ground (arith, tests.1.1.1.1.1.1.1.1.1.1.1.1.0)

restore_record-insert :
    (id : Text) (r : ChallengeRecord) (acc : ChallengeStore)
    → IsEntry (id, r)
    → lookup id acc ≡ none
    → restore_record r acc ≡ (ok tt, insert id r acc)
unfolding restore_record canonicalize_binding ◌>>=◌
restore_record-insert id r acc h new = elim (Option-cases r.consumed_at) [
  | inl absent ↦ ground (arith, valid-order r.binding h.1.valid, h.1.used)
  | inr (t, at) ↦ ground (arith, valid-order r.binding h.1.valid, h.1.after_issuance t, h.1.unused)
]

restore_all-insert_all :
    (m acc : ChallengeStore)
    → All IsEntry m
    → IsDistinct m
    → Fresh acc m
    → restore_all (values m) acc ≡ (ok tt, insert_all acc m)
unfolding restore_all insert_all ◌>>=◌
restore_all-insert_all [] acc h d f = refl
restore_all-insert_all ((id, r) ∷ m) acc h d f =
    rw (restore_record-insert id r acc h.0 f.0)
      (restore_all-insert_all m (insert id r acc) h.1 d.1 (Fresh-insert id r acc m d.0 f.1))

-- A store whose ids are distinct and whose records pass the tests of a restored one comes back
-- from its own snapshot, with its entries in the same order.
pub restore-snapshot : (s : ChallengeStore) → IsSound s → restore (snapshot s) ≡ ok s
unfolding restore
restore-snapshot s h =
    ap restored (restore_all-insert_all s [] h.entries h.distinct (Fresh-nil s))
    ∙ ap ok (insert_all_rebuilds s h.distinct)

insert-IsSound :
    (id : Text) (r : ChallengeRecord) (s : ChallengeStore)
    → IsEntry (id, r)
    → IsSound s
    → IsSound (insert id r s)
insert-IsSound id r s h v = record {
  distinct = insert-IsDistinct id r s v.distinct;
  entries = All-insert IsEntry id r s (λ j e. (e ∙ h.0, h.1)) v.entries;
}

create_written :
    (input : CreateChallengeInput) (id : Text) (now : ℕ) (s : ChallengeStore)
    → ((create input id now s).1 ≡ s)
      ⊎ ((create input id now s).1 ≡ insert id (new_record input id now) s)
unfolding create ◌>>=◌
create_written input id now s = ground arith

-- `create` keeps a store restorable if the new binding is valid.
pub create-IsSound :
    (input : CreateChallengeInput) (id : Text) (now : ℕ) (s : ChallengeStore)
    → validate_binding (new_binding input id now) ≡ none
    → IsSound s
    → IsSound (create input id now s).1
create-IsSound input id now s valid v = elim (create_written input id now s) [
  | inl same ↦ rw same v
  | inr new ↦ rw new (insert-IsSound id _ s (refl, fresh) v)
]
  where
    fresh : IsRestorable (new_record input id now)
    fresh = record {
      valid = valid;
      unused = λ _. refl;
      used = λ u. absurd (ground arith);
      after_issuance = λ t e. absurd (cc);
    }

cancel_written :
    (id : Text) (now : ℕ) (s : ChallengeStore) (found : ChallengeRecord)
    → lookup id s ≡ some found
    → ((cancel id now s).1 ≡ s)
      ⊎ (((cancel id now s).1
            ≡ insert id (record found { status = cancelled; consumed_at = some now }) s)
          × (found.binding.issued_at ≤ now))
unfolding cancel ◌>>=◌
cancel_written id now s found h = ground arith

-- A used record of a sound store.
used-IsEntry :
    (id : Text) (found : ChallengeRecord) (status : ChallengeStatus) (now : ℕ) (s : ChallengeStore)
    → IsSound s
    → lookup id s ≡ some found
    → (status ≡ confirmed) ⊎ (status ≡ cancelled)
    → found.binding.issued_at ≤ now
    → IsEntry (id, record found { status = status; consumed_at = some now })
used-IsEntry id found status now s v h u later =
    let entry = All-lookup IsEntry id found s v.entries h in
    (
      entry.0,
      record {
        valid = entry.1.valid;
        unused = λ e. absurd (ground arith);
        used = λ _ e. absurd (cc);
        after_issuance = λ t e. ground arith;
      },
    )

expired-IsEntry :
    (id : Text) (found : ChallengeRecord) (s : ChallengeStore)
    → IsSound s
    → lookup id s ≡ some found
    → found.status ≡ created
    → IsEntry (id, record found { status = expired })
expired-IsEntry id found s v h unused =
    let entry = All-lookup IsEntry id found s v.entries h in
    let absent = entry.1.unused unused in
    (
      entry.0,
      record {
        valid = entry.1.valid;
        unused = λ e. absurd (cc);
        used = λ u. absurd (ground arith);
        after_issuance = λ t e. absurd (cc);
      },
    )

-- `cancel` keeps a store restorable, whether it returns or throws.
pub cancel-IsSound :
    (id : Text) (now : ℕ) (s : ChallengeStore) → IsSound s → IsSound (cancel id now s).1
cancel-IsSound id now s v = elim (Option-cases (lookup id s)) [
  | inl missing ↦ rw (cancel_missing id now s missing) v
  | inr (found, stored) ↦ elim (cancel_written id now s found stored) [
    | inl same ↦ rw same v
    | inr (new, later) ↦
        rw new (
          insert-IsSound id _ s (used-IsEntry id found cancelled now s v stored (inr refl) later) v)
  ]
]

Refused-IsSound :
    (crypto : Crypto) (approval : SignedApproval) (key : Text) (now : ℕ) (algorithm : Text)
    {e : Error} {s s' : ChallengeStore}
    → IsSound s
    → Refused crypto approval key now algorithm e s s'
    → IsSound s'
Refused-IsSound crypto approval key now algorithm v unchanged = v
Refused-IsSound crypto approval key now algorithm {s = s} v
      (expires found stored unused past e written) =
    rw written (
      insert-IsSound approval.binding.challenge_id _ s (expired-IsEntry _ found s v stored unused)
        v)

-- `consume` keeps a store restorable, whether it returns or throws, if the instant is not before
-- the issuance that the approval names.
pub consume-IsSound :
    (crypto : Crypto) (approval : SignedApproval) (key : Text) (now : ℕ) (algorithm : Text)
    (s : ChallengeStore)
    → approval.binding.issued_at ≤ now
    → IsSound s
    → IsSound (consume crypto approval key now algorithm s).1
consume-IsSound crypto approval key now algorithm s later v =
    outcome (consume crypto approval key now algorithm s) refl
  where
    outcome :
        (p : Result Error ChallengeRecord × ChallengeStore)
        → consume crypto approval key now algorithm s ≡ p
        → IsSound p.1
    outcome (ok r, s') e =
        let c = consume_inv crypto approval key now algorithm s s' r e in
        rw (c.written, c.result)
          (insert-IsSound approval.binding.challenge_id _ s
            (used-IsEntry _ c.found confirmed now s v c.stored (inl refl) (rw c.same_binding later))
            v)
    outcome (err x, s') e =
        Refused-IsSound crypto approval key now algorithm v
          (consume-Refused crypto approval key now algorithm x s s' e)
