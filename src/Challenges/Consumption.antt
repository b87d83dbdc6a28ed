-- ===== src/Challenges/Consumption.antt =====
-- packages/state-machine/challengeStore.ts: the branches of `consume` and `cancel`.
use contactless_airlock_lab.Prelude.{
  ℕ, ◌≤◌, ◌<◌, ◌≡◌, ◌≢◌, ◌⊎◌, ◌↔◌, inl, inr, refl, true, false, none, some, Text, text_Eq, lookup,
  insert, lookup-insert_ne, Result, ok, err, ◌>>=◌, arith, discrete_eq_iff, Option-cases,
  Result-cases, ap,
}
use contactless_airlock_lab.Protocol.{
  SignedApproval, ChallengeRecord, created, confirmed, expired, cancelled, Error, unknown_challenge,
  challenge_already_terminal, challenge_expired,
}
use contactless_airlock_lab.Protocol.Canonical.{
  Fields, canonicalize_binding, fields_eq, Fields-discrete,
}
use contactless_airlock_lab.Protocol.Binding.{canonicalize-injective}
use contactless_airlock_lab.Crypto.{Crypto, verify_approval}
use contactless_airlock_lab.Challenges.{
  ChallengeStore, CreateChallengeInput, is_created, create, consume, cancel, new_record,
}

-- What a successful `consume` has seen, and what it wrote.
pub record Consumed (crypto : Crypto) (approval : SignedApproval) (key : Text) (now : ℕ)
    (algorithm : Text) (s : ChallengeStore) (r : ChallengeRecord) (s' : ChallengeStore)
    : Type 0 where
  pub found : ChallengeRecord
  pub stored : lookup approval.binding.challenge_id s ≡ some found
  pub unused : found.status ≡ created
  pub same_binding : found.binding ≡ approval.binding
  pub payload : Fields
  pub valid : canonicalize_binding approval.binding ≡ ok payload
  pub in_time : now < found.binding.expires_at
  pub signed : verify_approval crypto approval key algorithm ≡ ok true
  pub result : r ≡ record found { status = confirmed; consumed_at = some now }
  pub written : s' ≡ insert approval.binding.challenge_id r s

module _ (crypto : Crypto) (approval : SignedApproval) (key : Text) (now : ℕ)
    (algorithm : Text) where
  abbrev id : Text
  id = approval.binding.challenge_id

  consume_unknown :
      (s : ChallengeStore)
      → lookup id s ≡ none
      → consume crypto approval key now algorithm s ≡ (err unknown_challenge, s)
  unfolding consume ◌>>=◌
  consume_unknown s h = ground arith

  pub consume_terminal :
      (s : ChallengeStore) (r : ChallengeRecord)
      → lookup id s ≡ some r
      → is_created r.status ≡ false
      → consume crypto approval key now algorithm s ≡ (err challenge_already_terminal, s)
  unfolding consume ◌>>=◌
  consume_terminal s r h t = ground arith

  same_bindings :
      (found : ChallengeRecord) {x y : Fields}
      → canonicalize_binding found.binding ≡ ok x
      → canonicalize_binding approval.binding ≡ ok y
      → fields_eq x y ≡ true
      → found.binding ≡ approval.binding
  same_bindings found {x} {y} hx hy e =
      canonicalize-injective found.binding approval.binding {x = y}
        (cc (hx, (discrete_eq_iff Fields-discrete x y).0 e)) hy

  consume_found :
      (found r : ChallengeRecord) (s s' : ChallengeStore)
      → lookup id s ≡ some found
      → consume crypto approval key now algorithm s ≡ (ok r, s')
      → Consumed crypto approval key now algorithm s r s'
  unfolding consume ◌>>=◌
  consume_found found r s s' stored h = elim (Result-cases (canonicalize_binding found.binding)) [
    | inr (e, p) ↦ absurd (ground arith)
    | inl (x, p) ↦ elim (Result-cases (canonicalize_binding approval.binding)) [
      | inr (e, q) ↦ absurd (ground arith)
      | inl (y, q) ↦ record {
        found = found;
        stored = stored;
        unused = ground arith;
        same_binding = same_bindings found p q (ground arith);
        payload = y;
        valid = q;
        in_time = ground arith;
        signed = ground arith;
        result = ground arith;
        written = ground arith;
      }
    ]
  ]

  pub consume_inv :
      (s s' : ChallengeStore) (r : ChallengeRecord)
      → consume crypto approval key now algorithm s ≡ (ok r, s')
      → Consumed crypto approval key now algorithm s r s'
  consume_inv s s' r h = elim (Option-cases (lookup id s)) [
    | inl missing ↦ absurd (ground (arith, consume_unknown s missing))
    | inr (found, stored) ↦ consume_found found r s s' stored h
  ]

  consume_succeeds :
      (s s' : ChallengeStore) (r : ChallengeRecord)
      → Consumed crypto approval key now algorithm s r s'
      → consume crypto approval key now algorithm s ≡ (ok r, s')
  unfolding consume ◌>>=◌
  consume_succeeds s s' r c =
      let x = c.payload in
      ground (arith, discrete_eq_iff Fields-discrete x x, ap canonicalize_binding c.same_binding)

  -- `consume` returns a record exactly when the named challenge is stored and unused, the
  -- submitted binding is valid and equal to the stored one in every field, the time is before the
  -- expiry and the signature verifies under the expected key; it then writes that challenge as
  -- confirmed, and nothing else.
  pub consume-iff-Consumed :
      (s s' : ChallengeStore) (r : ChallengeRecord)
      → (consume crypto approval key now algorithm s ≡ (ok r, s'))
        ↔ Consumed crypto approval key now algorithm s r s'
  consume-iff-Consumed s s' r = (consume_inv s s' r, consume_succeeds s s' r)

  -- What a `consume` that throws leaves behind.
  pub data Refused (e : Error) (s : ChallengeStore) : ChallengeStore → Type 0 where
    unchanged : Refused e s s
    expires :
        (found : ChallengeRecord) {s' : ChallengeStore}
        → lookup id s ≡ some found
        → found.status ≡ created
        → found.binding.expires_at ≤ now
        → e ≡ challenge_expired
        → s' ≡ insert id (record found { status = expired }) s
        → Refused e s s'

  Refused-same : (e : Error) (s s' : ChallengeStore) → s' ≡ s → Refused e s s'
  Refused-same e s s' p = rw p unchanged

  refused_found :
      (found : ChallengeRecord) (e : Error) (s s' : ChallengeStore)
      → lookup id s ≡ some found
      → consume crypto approval key now algorithm s ≡ (err e, s')
      → (s' ≡ s)
        ⊎ ((found.status ≡ created)
            × (found.binding.expires_at ≤ now)
            × (e ≡ challenge_expired)
            × (s' ≡ insert id (record found { status = expired }) s))
  unfolding consume ◌>>=◌
  refused_found found e s s' stored h = ground arith

  -- A `consume` that throws leaves the store as it was, but for an unused challenge past its
  -- expiry: then the error is that it expired, and it is marked as expired.
  pub consume-Refused :
      (e : Error) (s s' : ChallengeStore)
      → consume crypto approval key now algorithm s ≡ (err e, s')
      → Refused e s s'
  consume-Refused e s s' h = elim (Option-cases (lookup id s)) [
    | inl missing ↦ Refused-same e s s' (ground (arith, consume_unknown s missing))
    | inr (found, stored) ↦ elim (refused_found found e s s' stored h) [
      | inl same ↦ Refused-same e s s' same
      | inr (a, b, c, d) ↦ expires found stored a b c d
    ]
  ]

  Refused-other :
      {e : Error} {s s' : ChallengeStore} (j : Text)
      → id ≢ j
      → Refused e s s'
      → lookup j s' ≡ lookup j s
  Refused-other j ne unchanged = refl
  Refused-other {s = s} j ne (expires found p q l m w) = rw w (lookup-insert_ne id j _ s ne)

  -- `consume` leaves every other challenge alone.
  pub consume_other :
      (s : ChallengeStore) (j : Text)
      → id ≢ j
      → lookup j (consume crypto approval key now algorithm s).1 ≡ lookup j s
  consume_other s j ne = outcome (consume crypto approval key now algorithm s) refl
    where
      outcome :
          (p : Result Error ChallengeRecord × ChallengeStore)
          → consume crypto approval key now algorithm s ≡ p
          → lookup j p.1 ≡ lookup j s
      outcome (ok r, s') e = rw (consume_inv s s' r e).written (lookup-insert_ne id j r s ne)
      outcome (err x, s') e = Refused-other j ne (consume-Refused x s s' e)

pub create_other :
    (input : CreateChallengeInput) (id j : Text) (now : ℕ) (s : ChallengeStore)
    → id ≢ j
    → lookup j (create input id now s).1 ≡ lookup j s
unfolding create ◌>>=◌
create_other input id j now s ne =
    ground (arith, lookup-insert_ne id j (new_record input id now) s ne)

pub cancel_missing :
    (id : Text) (now : ℕ) (s : ChallengeStore)
    → lookup id s ≡ none
    → cancel id now s ≡ (err unknown_challenge, s)
unfolding cancel ◌>>=◌
cancel_missing id now s h = ground arith

pub cancel_terminal :
    (id : Text) (now : ℕ) (s : ChallengeStore) (r : ChallengeRecord)
    → lookup id s ≡ some r
    → is_created r.status ≡ false
    → cancel id now s ≡ (err challenge_already_terminal, s)
unfolding cancel ◌>>=◌
cancel_terminal id now s r h t = ground arith

cancel_found :
    (id j : Text) (now : ℕ) (s : ChallengeStore) (found : ChallengeRecord)
    → id ≢ j
    → lookup id s ≡ some found
    → lookup j (cancel id now s).1 ≡ lookup j s
unfolding cancel ◌>>=◌
cancel_found id j now s found ne h = ground (
  arith,
  lookup-insert_ne id j (record found { status = cancelled; consumed_at = some now }) s ne,
)

pub cancel_other :
    (id j : Text) (now : ℕ) (s : ChallengeStore)
    → id ≢ j
    → lookup j (cancel id now s).1 ≡ lookup j s
cancel_other id j now s ne = elim (Option-cases (lookup id s)) [
  | inl missing ↦ rw (cancel_missing id now s missing)
  | inr (found, stored) ↦ cancel_found id j now s found ne stored
]
