-- ===== src/Engine/Caps.antt =====
-- apps/issuer-simulator/airlockEngine.ts: the tests and the reservation of `authorize`.
use contactless_airlock_lab.Prelude.{
  ◌≡◌, ◌≢◌, refl, ap, ◌∙◌, ℕ, ◌+◌, ◌≤◌, true, false, Text, Option, none, some, [], ◌∷◌, ok, err,
  arith, text_Eq, text_eq_iff, lookup, insert, ◌&&◌, lookup-insert, get_or, ◌>>=◌, inl, inr,
  Option-cases, Bool-cases, Result-cases, ◌==◌, eq_refl, if◌then◌else◌,
}
use contactless_airlock_lab.Protocol.{confirmation_pending, Error}
use contactless_airlock_lab.Protocol.Canonical.{is_positive_safe}
use contactless_airlock_lab.Challenges.{ChallengeStore, create, new_binding, new_record}
use contactless_airlock_lab.Transitions.{transition_transaction}
use contactless_airlock_lab.Engine.{
  Engine, Platform, TrustedDevice, PaymentToken, CapReservation, SpendKey, spend_key_Eq, is_active,
  require_active_device,
}
use contactless_airlock_lab.Engine.Transactions.{
  AuthorizeInput, is_spendable, is_capped, day_of, spend_of, confirmation_challenge,
  new_transaction, admit, reserve, issue_challenge, authorize,
}

-- A successful `requireActiveDevice`.
require_same :
    (id : Text) (subject : Option Text) (s : Engine) → (require_active_device id subject s).1 ≡ s
unfolding require_active_device ◌>>=◌
require_same id subject s = ground arith

create_confirmation :
    (token : PaymentToken) (input : AuthorizeInput) (id : Text) (now : ℕ) (c : ChallengeStore)
    → create (confirmation_challenge token input) id now c ≡ (
      ok (new_binding (confirmation_challenge token input) id now),
      insert id (new_record (confirmation_challenge token input) id now) c,
    )
unfolding create ◌>>=◌
create_confirmation token input id now c = refl

-- What the tests of `authorize` establish.
pub record Admitted (input : AuthorizeInput) (s : Engine) (token : PaymentToken) : Type 0 where
  pub new : lookup input.transaction_id s.transactions ≡ none
  pub amount : is_positive_safe input.amount_minor ≡ true
  pub stored : lookup input.token_id s.tokens ≡ some token
  pub spendable : is_spendable token.state ≡ true
  pub device : TrustedDevice
  pub enrolled : lookup input.trusted_device_id s.devices ≡ some device
  pub active : is_active device.status ≡ true
  pub owner : (token.subject_id ≢ []) → device.subject_id ≡ token.subject_id

require_owner :
    (id subject : Text) (s : Engine) (d : TrustedDevice)
    → (require_active_device id (some subject) s).0 ≡ ok d
    → (lookup id s.devices ≡ some d)
      × (is_active d.status ≡ true)
      × (subject ≢ [] → d.subject_id ≡ subject)
unfolding require_active_device ◌>>=◌
require_owner id [] s d h = (ground arith, ground arith, λ ne. absurd (ne refl))
require_owner id (c ∷ cs) s d h =
    (ground arith, ground arith, λ _. ground (arith, text_eq_iff d.subject_id (c ∷ cs)))

pub admit_same : (input : AuthorizeInput) (s : Engine) → (admit input s).1 ≡ s
unfolding admit ◌>>=◌
admit_same input s = elim (Option-cases (lookup input.token_id s.tokens)) [
  | inl missing ↦ ground arith
  | inr (token, found) ↦
      ground (arith, require_same input.trusted_device_id (some token.subject_id) s)
]

pub admitted :
    (input : AuthorizeInput) (s s' : Engine) (token : PaymentToken)
    → admit input s ≡ (ok token, s')
    → Admitted input s token
unfolding admit ◌>>=◌
admitted input s s' token h = elim (Option-cases (lookup input.token_id s.tokens)) [
  | inl missing ↦ absurd (ground arith)
  | inr (found, stored) ↦
      elim (Result-cases
        (require_active_device input.trusted_device_id (some found.subject_id) s).0) [
          | inr (e, refused) ↦ absurd (ground arith)
          | inl (d, passed) ↦
              let owner = require_owner input.trusted_device_id found.subject_id s d passed in
              let same : token ≡ found = ground arith in
              rw same (record {
                new = ground arith;
                amount = ground arith;
                stored = stored;
                spendable = ground arith;
                device = d;
                enrolled = owner.0;
                active = owner.1;
                owner = owner.2;
              })
        ]
]

pub reserve_refused :
    (token : PaymentToken) (input : AuthorizeInput) (now : ℕ) (e : Error) (s : Engine)
    → (reserve token input now s).0 ≡ err e
    → (reserve token input now s).1 ≡ s
unfolding reserve ◌>>=◌
reserve_refused token input now e s h = ground arith

-- The reservation of a capped token, and the spend that it leaves for a key.
abbrev pub reservation_of : PaymentToken → AuthorizeInput → ℕ → Option CapReservation
reservation_of token input now =
    if is_capped token.state
    then some
        (record { spend_key = (token.token_id, day_of now); amount_minor = input.amount_minor })
    else none

abbrev pub charge : PaymentToken → AuthorizeInput → ℕ → SpendKey → ℕ
charge token input now key =
    if is_capped token.state && (token.token_id, day_of now) == key then input.amount_minor else 0

pub record Reserved (token : PaymentToken) (input : AuthorizeInput) (now : ℕ) (s s' : Engine)
    : Type 0 where
  pub transaction_cap :
      is_capped token.state ≡ true → input.amount_minor ≤ get_or 0 token.per_transaction_cap_minor
  pub daily_cap :
      is_capped token.state ≡ true
      → spend_of (token.token_id, day_of now) s' ≤ get_or 0 token.daily_cap_minor
  pub spends : (key : SpendKey) → spend_of key s' ≡ spend_of key s + charge token input now key

reserve_uncapped :
    (token : PaymentToken) (input : AuthorizeInput) (now : ℕ) (s : Engine)
    → is_capped token.state ≡ false
    → reserve token input now s ≡ (ok none, s)
unfolding reserve ◌>>=◌
reserve_uncapped token input now s h = ground arith

reserve_capped :
    (token : PaymentToken) (input : AuthorizeInput) (now : ℕ) (r : Option CapReservation)
    (s : Engine)
    → is_capped token.state ≡ true
    → (reserve token input now s).0 ≡ ok r
    → let key : SpendKey = (token.token_id, day_of now) in
      (input.amount_minor ≤ get_or 0 token.per_transaction_cap_minor)
      × (spend_of key s + input.amount_minor ≤ get_or 0 token.daily_cap_minor)
      × (r ≡ reservation_of token input now)
      × ((reserve token input now s).1 ≡ record s {
        daily_spend = insert key (spend_of key s + input.amount_minor) s.daily_spend;
      })
unfolding reserve ◌>>=◌
reserve_capped token input now r s c h = ground arith

inserted_spend :
    (k key : SpendKey) (n : ℕ) (s : Engine)
    → spend_of key (record s { daily_spend = insert k n s.daily_spend })
      ≡ (if k == key then n else spend_of key s)
inserted_spend k key n s = ground (arith, lookup-insert k key n s.daily_spend)

charged_self :
    (token : PaymentToken) (input : AuthorizeInput) (now : ℕ) (s : Engine)
    → let key : SpendKey = (token.token_id, day_of now) in
      spend_of key
        (record s { daily_spend = insert key (spend_of key s + input.amount_minor) s.daily_spend })
      ≡ spend_of key s + input.amount_minor
charged_self token input now s =
    let key : SpendKey = (token.token_id, day_of now) in
    ground (arith, inserted_spend key key (spend_of key s + input.amount_minor) s, eq_refl key)

charged :
    (token : PaymentToken) (input : AuthorizeInput) (now : ℕ) (key : SpendKey) (s : Engine)
    → is_capped token.state ≡ true
    → let k : SpendKey = (token.token_id, day_of now) in
      spend_of key
        (record s { daily_spend = insert k (spend_of k s + input.amount_minor) s.daily_spend })
      ≡ spend_of key s + charge token input now key
charged token input now key s c =
    let k : SpendKey = (token.token_id, day_of now) in
    elim (Bool-cases (k == key)) [
      | inl same ↦
          inserted_spend k key _ s
          ∙ ground
              (arith, ap (λ (j : SpendKey). spend_of j s) ((spend_key_Eq.beq_iff k key).0 same))
      | inr other ↦ inserted_spend k key _ s ∙ ground arith
    ]

pub reserved :
    (token : PaymentToken) (input : AuthorizeInput) (now : ℕ) (r : Option CapReservation)
    (s : Engine)
    → (reserve token input now s).0 ≡ ok r
    → (r ≡ reservation_of token input now)
      × Reserved token input now s (reserve token input now s).1
reserved token input now r s h = elim (Bool-cases (is_capped token.state)) [
  | inr uncapped ↦
      let same = reserve_uncapped token input now s uncapped in
      rw same (
        ground arith,
        record {
          transaction_cap = λ c. absurd (ground arith);
          daily_cap = λ c. absurd (ground arith);
          spends = λ key. ground arith;
        },
      )
  | inl capped ↦
      let (fits, within, is_r, left) = reserve_capped token input now r s capped h in
      (
        is_r,
        rw left (record {
          transaction_cap = λ _. fits;
          daily_cap = λ _. rw (charged_self token input now s) within;
          spends = λ key. charged token input now key s capped;
        }),
      )
]

module _ (platform : Platform) (input : AuthorizeInput) (now : ℕ)
    (challenge_id event_id : Text) where
  issued :
      (token : PaymentToken) (r : Option CapReservation) (s : Engine)
      → (issue_challenge platform input now challenge_id event_id token r s).0
        ≡ ok (
            new_transaction token input confirmation_pending
              (new_binding (confirmation_challenge token input) challenge_id now)
              r)
  unfolding issue_challenge transition_transaction create ◌>>=◌
  issued token r s = refl

  -- An authorization that throws changes nothing.
  pub authorize_refused :
      (e : Error) (s s' : Engine)
      → authorize platform input now challenge_id event_id s ≡ (err e, s')
      → s' ≡ s
  unfolding authorize ◌>>=◌
  authorize_refused e s s' h = elim (Result-cases (admit input s).0) [
    | inr (x, refused) ↦ ground (arith, admit_same input s)
    | inl (token, passed) ↦ elim (Result-cases (reserve token input now s).0) [
      | inr (x, refused) ↦
          ground (arith, admit_same input s, reserve_refused token input now x s refused)
      | inl (r, reserved) ↦
          absurd (ground (arith, admit_same input s, issued token r (reserve token input now s).1))
    ]
  ]
