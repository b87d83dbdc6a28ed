-- ===== src/Engine/Confirmation.antt =====
-- apps/issuer-simulator/airlockEngine.ts: what a confirmation compares, and what a clearing does to a
-- transaction.
use contactless_airlock_lab.Prelude.{
  ◌≡◌, ℕ, true, Text, Option, none, some, ok, err, arith, text_Eq, text_eq_iff, lookup, insert,
  lookup-insert_self, Option-cases, inl, inr, ◌>>=◌,
}
use contactless_airlock_lab.Protocol.{
  SignedApproval, ChallengeBinding, ChallengeRecord, TransactionState, confirmation_pending,
  reversal_requested, reversed, clearing_received, settled, exception,
  invalid_transaction_transition,
}
use contactless_airlock_lab.Challenges.{ChallengeStore, consume}
use contactless_airlock_lab.Transitions.{transition_transaction}
use contactless_airlock_lab.Engine.{
  Engine, Platform, TrustedDevice, TransactionRecord, is_active, require_active_device,
}
use contactless_airlock_lab.Engine.Transactions.{confirm_transaction_with, receive_clearing}

module _ (platform : Platform) (id : Text) (now : ℕ) (event_id : Text) where
  -- A pending transaction whose challenge names an active device is confirmed by any approval
  -- under the key id of that device that the store's `consume` accepts, whatever challenge that
  -- approval is of.
  pub confirm_with_any_challenge :
      (approval : SignedApproval) (t : TransactionRecord) (b : ChallengeBinding)
      (r : ChallengeRecord) (d : TrustedDevice) (c : ChallengeStore) (s : Engine)
      → lookup id s.transactions ≡ some t
      → t.state ≡ confirmation_pending
      → t.challenge ≡ some b
      → lookup b.trusted_device_id s.devices ≡ some d
      → is_active d.status ≡ true
      → approval.key_id ≡ d.key_id
      → consume platform.crypto approval d.public_key_pem now d.algorithm s.challenges ≡ (ok r, c)
      → (confirm_transaction_with platform id approval now event_id s).0
        ≡ ok (record t { state = TransactionState.confirmed })
  unfolding confirm_transaction_with require_active_device transition_transaction ◌>>=◌
  confirm_with_any_challenge approval t b r d c s h1 h2 h3 h4 h5 h6 h7 =
      ground (arith, text_eq_iff approval.key_id d.key_id)

  -- What a clearing makes of a state, if it may come in it.
  abbrev pub cleared : TransactionState → Option TransactionState
  cleared TransactionState.confirmed = some settled
  cleared TransactionState.expired = some exception
  cleared reversal_requested = some exception
  cleared reversed = some exception
  cleared _ = none

  cleared_outcome :
      (t : TransactionRecord) (s : Engine)
      → lookup id s.transactions ≡ some t
      → (receive_clearing platform id now event_id s).0 ≡ elim (cleared t.state) [
        | some x ↦ ok (record t { state = x })
        | none ↦ err (invalid_transaction_transition t.state clearing_received)
      ]
  unfolding receive_clearing transition_transaction ◌>>=◌
  cleared_outcome t s found = ground arith

  cleared_transactions :
      (t : TransactionRecord) (s : Engine)
      → lookup id s.transactions ≡ some t
      → (receive_clearing platform id now event_id s).1.transactions ≡ elim (cleared t.state) [
        | some x ↦
            insert id
              (record t { state = x })
              (insert id (record t { state = clearing_received }) s.transactions)
        | none ↦ s.transactions
      ]
  unfolding receive_clearing transition_transaction ◌>>=◌
  cleared_transactions t s found = ground arith

  -- The clearing of a stored transaction settles a confirmed one, makes an exception of one that
  -- expired or is being or was reversed, and throws in every other state, leaving that state; the
  -- stored record has the state of the one returned.
  pub receive_clearing_lem :
      (t : TransactionRecord) (s : Engine)
      → lookup id s.transactions ≡ some t
      → ((receive_clearing platform id now event_id s).0 ≡ elim (cleared t.state) [
        | some x ↦ ok (record t { state = x })
        | none ↦ err (invalid_transaction_transition t.state clearing_received)
      ])
        × (lookup id (receive_clearing platform id now event_id s).1.transactions
            ≡ some (elim (cleared t.state) [ some x ↦ record t { state = x } | none ↦ t ]))
  receive_clearing_lem t s found =
      let m = insert id (record t { state = clearing_received }) s.transactions in
      (
        cleared_outcome t s found,
        elim (Option-cases (cleared t.state)) [
          | inl n ↦ rw (n, cleared_transactions t s found, n) found
          | inr (x, e) ↦
              rw (e, cleared_transactions t s found, e)
                (lookup-insert_self id (record t { state = x }) m)
        ],
      )
