-- ===== src/Engine/Transactions.antt =====
-- apps/issuer-simulator/airlockEngine.ts: authorize, confirmTransaction, expireAndReverse and
-- receiveClearing. An amount is a natural number: the source's test for a positive safe integer keeps
-- its bounds.
use contactless_airlock_lab.Prelude.{
  ℕ, ◌+◌, ◌/◌, Bool, true, false, not, Option, none, some, Text, text, leb, ◌==◌, text_Eq,
  if◌then◌else◌, has, insert, get_or, ◌>>=◌, ◌>>◌, pure, lift, gets, fetch, modify, guard,
}
use contactless_airlock_lab.Protocol.{
  SignedApproval, ChallengeBinding, TransactionState, received, confirmation_pending,
  reversal_requested, reversed, clearing_received, settled, exception, confirm_transaction,
  transaction_id_exists, invalid_amount, unknown_token, token_not_spendable, exceeds_cap,
  exceeds_daily_cap, unknown_transaction, transaction_has_no_challenge, key_id_mismatch,
}
use contactless_airlock_lab.Protocol.Canonical.{is_positive_safe}
use contactless_airlock_lab.Transitions.{transition_transaction}
use contactless_airlock_lab.Challenges.{CreateChallengeInput, create, consume, cancel}
use contactless_airlock_lab.Engine.{
  Engine, Op, Platform, PaymentToken, TokenState, pending, active_capped, active_full,
  TransactionRecord, Strategy, CapReservation, SpendKey, spend_key_Eq,
  transaction_confirmation_pending, transaction_confirmed, transaction_reversed_after_timeout,
  transaction_clearing_received, transaction, must, put_transaction, on_challenges, log_event,
  require_active_device,
}
use contactless_airlock_lab.Engine.Invalidation.{spend_in, release_cap_reservation}

pub record AuthorizeInput : Type 0 where
  pub transaction_id : Text
  pub token_id : Text
  pub merchant_id : Text
  pub amount_minor : ℕ
  pub strategy : Strategy
  pub trusted_device_id : Text

abbrev pub is_spendable : TokenState → Bool
is_spendable pending = false
is_spendable TokenState.declined = false
is_spendable active_capped = true
is_spendable active_full = true

abbrev pub is_capped : TokenState → Bool
is_capped active_capped = true
is_capped _ = false

-- `now.toISOString().slice(0, 10)`, as the number of the day
abbrev pub day_of : ℕ → ℕ
day_of now = now / 86400000

abbrev pub usd : Text
usd = text "USD"

abbrev pub spend_of : SpendKey → Engine → ℕ
spend_of key s = spend_in key s.daily_spend

abbrev pub confirmation_challenge : PaymentToken → AuthorizeInput → CreateChallengeInput
confirmation_challenge token input = record {
  purpose = confirm_transaction;
  subject_id = token.subject_id;
  account_id = token.account_id;
  payment_token_id = token.token_id;
  trusted_device_id = input.trusted_device_id;
  transaction_id = some input.transaction_id;
  merchant_id = some input.merchant_id;
  amount_minor = some input.amount_minor;
  currency = some usd;
  ttl_ms = 30000;
}

abbrev pub new_transaction :
    PaymentToken
    → AuthorizeInput
    → TransactionState
    → ChallengeBinding
    → Option CapReservation
    → TransactionRecord
new_transaction token input state challenge reservation = record {
  transaction_id = input.transaction_id;
  token_id = token.token_id;
  merchant_id = input.merchant_id;
  amount_minor = input.amount_minor;
  currency = usd;
  state = state;
  strategy = input.strategy;
  challenge = some challenge;
  cap_reservation = reservation;
}

-- The tests of `authorize` before the caps.
unfoldable pub admit : AuthorizeInput → Op PaymentToken
admit input = do
  known ← gets (λ s. has input.transaction_id s.transactions)
  guard (not known) transaction_id_exists
  guard (is_positive_safe input.amount_minor) invalid_amount
  token ← must (λ s. s.tokens) input.token_id unknown_token
  guard (is_spendable token.state) token_not_spendable
  require_active_device input.trusted_device_id (some token.subject_id)
  pure token

-- The two caps of a capped token, and the reservation of the amount.
unfoldable pub reserve : PaymentToken → AuthorizeInput → ℕ → Op (Option CapReservation)
reserve token input now =
    let key : SpendKey = (token.token_id, day_of now) in
    if is_capped token.state
    then (do
      guard (leb input.amount_minor (get_or 0 token.per_transaction_cap_minor)) exceeds_cap
      spent ← gets (spend_of key)
      guard (leb (spent + input.amount_minor) (get_or 0 token.daily_cap_minor)) exceeds_daily_cap
      modify (λ s. record s { daily_spend = insert key (spent + input.amount_minor) s.daily_spend })
      pure (some (record { spend_key = key; amount_minor = input.amount_minor })))
    else pure none

abbrev pub require_challenge : Option ChallengeBinding → Op ChallengeBinding
require_challenge challenge = fetch (λ _. challenge) transaction_has_no_challenge

-- The states in which `receiveClearing` takes a clearing for an exception.
abbrev pub reversed_before_clearing : TransactionState → Bool
reversed_before_clearing TransactionState.expired = true
reversed_before_clearing reversal_requested = true
reversed_before_clearing reversed = true
reversed_before_clearing _ = false

module _ (platform : Platform) where
  -- The end of `authorize`: the challenge, the record and the audit event.
  unfoldable pub issue_challenge :
      AuthorizeInput → ℕ → Text → Text → PaymentToken → Option CapReservation → Op TransactionRecord
  issue_challenge input now challenge_id event_id token reservation = do
    state ← lift (transition_transaction received confirmation_pending)
    challenge ← on_challenges (create (confirmation_challenge token input) challenge_id now)
    let issued = new_transaction token input state challenge reservation
    modify (put_transaction input.transaction_id issued)
    log_event platform transaction_confirmation_pending input.transaction_id
        (transaction issued challenge.challenge_id) now event_id
    pure issued

  unfoldable pub authorize : AuthorizeInput → ℕ → Text → Text → Op TransactionRecord
  authorize input now challenge_id event_id = do
    token ← admit input
    reservation ← reserve token input now
    issue_challenge input now challenge_id event_id token reservation

  unfoldable pub confirm_transaction_with : Text → SignedApproval → ℕ → Text → Op TransactionRecord
  confirm_transaction_with transaction_id approval now event_id = do
    found ← must (λ s. s.transactions) transaction_id unknown_transaction
    challenge ← require_challenge found.challenge
    device ← require_active_device challenge.trusted_device_id none
    guard (approval.key_id == device.key_id) key_id_mismatch
    on_challenges (consume platform.crypto approval device.public_key_pem now device.algorithm)
    state ← lift (transition_transaction found.state TransactionState.confirmed)
    let done = record found { state = state }
    modify (put_transaction transaction_id done)
    log_event platform transaction_confirmed transaction_id
        (transaction done approval.binding.challenge_id) now event_id
    pure done

  unfoldable pub expire_and_reverse : Text → ℕ → Text → Op TransactionRecord
  expire_and_reverse transaction_id now event_id = do
    found ← must (λ s. s.transactions) transaction_id unknown_transaction
    challenge ← require_challenge found.challenge
    on_challenges (cancel challenge.challenge_id now)
    first ← lift (transition_transaction found.state TransactionState.expired)
    modify (put_transaction transaction_id (record found { state = first }))
    second ← lift (transition_transaction first reversal_requested)
    modify (put_transaction transaction_id (record found { state = second }))
    third ← lift (transition_transaction second reversed)
    released ← release_cap_reservation (record found { state = third })
    modify (put_transaction transaction_id released)
    log_event platform transaction_reversed_after_timeout transaction_id
        (transaction released challenge.challenge_id) now event_id
    pure released

  unfoldable pub receive_clearing : Text → ℕ → Text → Op TransactionRecord
  receive_clearing transaction_id now event_id = do
    found ← must (λ s. s.transactions) transaction_id unknown_transaction
    first ← lift (transition_transaction found.state clearing_received)
    modify (put_transaction transaction_id (record found { state = first }))
    second ← lift (
        transition_transaction first
          (if reversed_before_clearing found.state then exception else settled))
    let done = record found { state = second }
    modify (put_transaction transaction_id done)
    log_event platform transaction_clearing_received transaction_id
        (transaction done transaction_id) now event_id
    pure done
