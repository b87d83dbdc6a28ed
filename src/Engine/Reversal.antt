-- ===== src/Engine/Reversal.antt =====
-- apps/issuer-simulator/airlockEngine.ts: an authorization in full, and its reversal after a timeout.
use contactless_airlock_lab.Prelude.{
  ◌≡◌, refl, sym, ap, ◌∙◌, ℕ, ◌-◌, ◌≤◌, true, Text, Option, none, some, Map, Result, ok, err, arith,
  text_Eq, lookup, lookup-insert, lookup-insert_self, lookup-erase, ◌>>=◌, inl, inr, Bool-cases,
  Result-cases, ◌==◌, eq_refl, if◌then◌else◌,
}
use contactless_airlock_lab.Protocol.{
  ChallengeBinding, ChallengeRecord, created, confirmation_pending, reversed, Error,
}
use contactless_airlock_lab.Challenges.{create, cancel, new_binding, new_record}
use contactless_airlock_lab.Transitions.{transition_transaction}
use contactless_airlock_lab.Engine.{
  Engine, Platform, PaymentToken, TransactionRecord, CapReservation, SpendKey, spend_key_Eq,
}
use contactless_airlock_lab.Engine.Invalidation.{spend_in, release_spend, release_cap_reservation}
use contactless_airlock_lab.Engine.Transactions.{
  AuthorizeInput, is_capped, day_of, spend_of, confirmation_challenge, new_transaction, admit,
  reserve, issue_challenge, authorize, expire_and_reverse,
}
use contactless_airlock_lab.Engine.Caps.{
  Admitted, admitted, admit_same, Reserved, reserved, reservation_of,
}

-- What a successful authorization established and wrote.
pub record Authorized (input : AuthorizeInput) (now : ℕ) (challenge_id : Text)
    (t : TransactionRecord) (s s' : Engine) : Type 0 where
  pub token : PaymentToken
  pub admission : Admitted input s token
  pub reservation : Reserved token input now s s'
  pub result :
      t
      ≡ new_transaction token input confirmation_pending
          (new_binding (confirmation_challenge token input) challenge_id now)
          (reservation_of token input now)
  pub recorded : lookup input.transaction_id s'.transactions ≡ some t
  pub challenged :
      lookup challenge_id s'.challenges
      ≡ some (new_record (confirmation_challenge token input) challenge_id now)

module _ (platform : Platform) (input : AuthorizeInput) (now : ℕ)
    (challenge_id event_id : Text) where
  issue_result :
      (token : PaymentToken) (r : Option CapReservation) (s : Engine)
      → (issue_challenge platform input now challenge_id event_id token r s).0
        ≡ ok (
            new_transaction token input confirmation_pending
              (new_binding (confirmation_challenge token input) challenge_id now)
              r)
  unfolding issue_challenge transition_transaction create ◌>>=◌
  issue_result token r s = refl

  issued-Authorized :
      (token : PaymentToken) (s u : Engine)
      → Admitted input s token
      → Reserved token input now s u
      → let r = reservation_of token input now in
        let t =
          new_transaction token input confirmation_pending
            (new_binding (confirmation_challenge token input) challenge_id now)
            r in
        Authorized input now challenge_id t s
          (issue_challenge platform input now challenge_id event_id token r u).1
  unfolding issue_challenge transition_transaction create ◌>>=◌
  issued-Authorized token s u a r = record {
    token = token;
    admission = a;
    reservation = record {
      transaction_cap = r.transaction_cap;
      daily_cap = r.daily_cap;
      spends = r.spends;
    };
    result = refl;
    recorded = lookup-insert_self input.transaction_id _ u.transactions;
    challenged = lookup-insert_self challenge_id _ u.challenges;
  }

  stages :
      (token : PaymentToken) (r : Option CapReservation) (s : Engine)
      → (admit input s).0 ≡ ok token
      → (reserve token input now s).0 ≡ ok r
      → authorize platform input now challenge_id event_id s
        ≡ issue_challenge platform input now challenge_id event_id token r
            (reserve token input now s).1
  unfolding authorize ◌>>=◌
  stages token r s a b = ground (arith, admit_same input s)

  refused_admission :
      (e : Error) (t : TransactionRecord) (s s' : Engine)
      → (admit input s).0 ≡ err e
      → authorize platform input now challenge_id event_id s ≡ (ok t, s')
      → ⊥
  unfolding authorize ◌>>=◌
  refused_admission e t s s' a h = ground arith

  refused_reservation :
      (token : PaymentToken) (e : Error) (t : TransactionRecord) (s s' : Engine)
      → (admit input s).0 ≡ ok token
      → (reserve token input now s).0 ≡ err e
      → authorize platform input now challenge_id event_id s ≡ (ok t, s')
      → ⊥
  unfolding authorize ◌>>=◌
  refused_reservation token e t s s' a b h = ground (arith, admit_same input s)

  authorized :
      (token : PaymentToken) (t : TransactionRecord) (s s' : Engine)
      → (admit input s).0 ≡ ok token
      → (reserve token input now s).0 ≡ ok (reservation_of token input now)
      → Reserved token input now s (reserve token input now s).1
      → authorize platform input now challenge_id event_id s ≡ (ok t, s')
      → Authorized input now challenge_id t s s'
  authorized token t s s' a b kept h =
      let r = reservation_of token input now in
      let u = (reserve token input now s).1 in
      let done = sym h ∙ stages token r s a b in
      let state : s' ≡ (issue_challenge platform input now challenge_id event_id token r u).1 =
        ap (λ (p : Result Error TransactionRecord × Engine). p.1) done in
      let answer : ok t ≡ (issue_challenge platform input now challenge_id event_id token r u).0 =
        ap (λ (p : Result Error TransactionRecord × Engine). p.0) done in
      let value : t
          ≡ new_transaction token input confirmation_pending
              (new_binding (confirmation_challenge token input) challenge_id now) r =
        cc (answer, issue_result token r u) in
      rw (value, state)
        (issued-Authorized token s u (admitted input s (admit input s).1 token (pair a)) kept)
    where
      pair : (admit input s).0 ≡ ok token → admit input s ≡ (ok token, (admit input s).1)
      pair p i = (p i, (admit input s).1)

  -- An authorization that returns has passed every test: a new transaction id, a positive safe
  -- amount, a spendable token, an enrolled and active device of the token's subject (if that
  -- subject is not empty); for a capped token the amount is within its cap and the day's total
  -- within the daily cap. It adds the amount to the day's spend of a capped token and to no other,
  -- returns the pending transaction, and stores it and its new challenge.
  pub authorize-Authorized :
      (t : TransactionRecord) (s s' : Engine)
      → authorize platform input now challenge_id event_id s ≡ (ok t, s')
      → Authorized input now challenge_id t s s'
  authorize-Authorized t s s' h = elim (Result-cases (admit input s).0) [
    | inr (e, a) ↦ absurd (refused_admission e t s s' a h)
    | inl (token, a) ↦ elim (Result-cases (reserve token input now s).0) [
      | inr (e, b) ↦ absurd (refused_reservation token e t s s' a b h)
      | inl (r, b) ↦
          authorized token t s s' a (rw (reserved token input now r s b).0 at b)
            (reserved token input now r s b).1 h
    ]
  ]

-- What a release leaves for each key.
pub release_spend_lem :
    (r : CapReservation) (key : SpendKey) (m : Map SpendKey ℕ)
    → spend_in key (release_spend r m)
      ≡ (if r.spend_key == key then spend_in r.spend_key m - r.amount_minor else spend_in key m)
unfolding release_spend
release_spend_lem r key m =
    let left = spend_in r.spend_key m - r.amount_minor in
    ground (arith, lookup-erase r.spend_key key m, lookup-insert r.spend_key key left m)

abbrev released : Option CapReservation → Engine → SpendKey → ℕ
released none s key = spend_of key s
released (some r) s key = spend_in key (release_spend r s.daily_spend)

abbrev pub reversed_record : TransactionRecord → TransactionRecord
reversed_record t = record t { state = reversed; cap_reservation = none }

module _ (platform : Platform) (transaction_id : Text) (now : ℕ) (event_id : Text) where
  -- The reversal of a pending transaction whose challenge is unused.
  reverse_result :
      (t : TransactionRecord) (b : ChallengeBinding) (c : ChallengeRecord) (s : Engine)
      → lookup transaction_id s.transactions ≡ some t
      → t.state ≡ confirmation_pending
      → t.challenge ≡ some b
      → lookup b.challenge_id s.challenges ≡ some c
      → c.status ≡ created
      → c.binding.issued_at ≤ now
      → (expire_and_reverse platform transaction_id now event_id s).0 ≡ ok (reversed_record t)
  unfolding expire_and_reverse cancel transition_transaction release_cap_reservation ◌>>=◌
  reverse_result t b c s h1 h2 h3 h4 h5 h6 = ground arith

  reverse_spend :
      (t : TransactionRecord) (b : ChallengeBinding) (c : ChallengeRecord) (s : Engine)
      (key : SpendKey)
      → lookup transaction_id s.transactions ≡ some t
      → t.state ≡ confirmation_pending
      → t.challenge ≡ some b
      → lookup b.challenge_id s.challenges ≡ some c
      → c.status ≡ created
      → c.binding.issued_at ≤ now
      → spend_of key (expire_and_reverse platform transaction_id now event_id s).1
        ≡ released t.cap_reservation s key
  unfolding expire_and_reverse cancel transition_transaction release_cap_reservation ◌>>=◌
  reverse_spend t b c s key h1 h2 h3 h4 h5 h6 = ground arith

given_back_capped :
    (token : PaymentToken) (input : AuthorizeInput) (now : ℕ) (s s' : Engine) (key : SpendKey)
    → is_capped token.state ≡ true
    → Reserved token input now s s'
    → released
        (some
          (record { spend_key = (token.token_id, day_of now); amount_minor = input.amount_minor }))
        s'
        key
      ≡ spend_of key s
given_back_capped token input now s s' key c kept =
    let charged : SpendKey = (token.token_id, day_of now) in
    let r : CapReservation = record { spend_key = charged; amount_minor = input.amount_minor } in
    elim (Bool-cases (charged == key)) [
      | inl same ↦
          let p : charged ≡ key = (spend_key_Eq.beq_iff charged key).0 same in
          ground (
            arith,
            release_spend_lem r key s'.daily_spend,
            kept.spends charged,
            eq_refl charged,
            ap (λ (k : SpendKey). spend_of k s) p,
          )
      | inr other ↦ ground (arith, release_spend_lem r key s'.daily_spend, kept.spends key)
    ]

given_back :
    (token : PaymentToken) (input : AuthorizeInput) (now : ℕ) (t : TransactionRecord)
    (s s' : Engine) (key : SpendKey)
    → t.cap_reservation ≡ reservation_of token input now
    → Reserved token input now s s'
    → released t.cap_reservation s' key ≡ spend_of key s
given_back token input now t s s' key r kept = elim (Bool-cases (is_capped token.state)) [
  | inl c ↦ rw (r, c) (given_back_capped token input now s s' key c kept)
  | inr u ↦ rw (r, u) (ground (arith, kept.spends key))
]

-- An authorization that returned, and its reversal at an instant no earlier with nothing between:
-- the reversal returns the transaction as reversed and without its reservation, and the daily
-- spend at any key is what it was before the authorization.
pub reverse-authorize :
    (platform : Platform) (input : AuthorizeInput) (now later : ℕ)
    (challenge_id event_id event' : Text) (t : TransactionRecord) (s s' : Engine) (key : SpendKey)
    → authorize platform input now challenge_id event_id s ≡ (ok t, s')
    → now ≤ later
    → ((expire_and_reverse platform input.transaction_id later event' s').0
        ≡ ok (reversed_record t))
      × (spend_of key (expire_and_reverse platform input.transaction_id later event' s').1
          ≡ spend_of key s)
reverse-authorize platform input now later challenge_id event_id event' t s s' key h le =
    let a = authorize-Authorized platform input now challenge_id event_id t s s' h in
    let c = new_record (confirmation_challenge a.token input) challenge_id now in
    let state = ap (λ (x : TransactionRecord). x.state) a.result in
    let challenge = ap (λ (x : TransactionRecord). x.challenge) a.result in
    let reservation = ap (λ (x : TransactionRecord). x.cap_reservation) a.result in
    let id = input.transaction_id in
    (
      reverse_result platform id later event' t c.binding c s' a.recorded state challenge
          a.challenged refl le,
      reverse_spend platform id later event' t c.binding c s' key a.recorded state challenge
            a.challenged refl le
          ∙ given_back a.token input now t s s' key reservation a.reservation,
    )
