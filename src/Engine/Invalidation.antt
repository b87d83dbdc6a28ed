-- ===== src/Engine/Invalidation.antt =====
-- apps/issuer-simulator/airlockEngine.ts: `#releaseCapReservation` and
-- `#invalidateOutstandingChallenges`.
use contactless_airlock_lab.Prelude.{
  ℕ, ◌-◌, Bool, false, not, ◌&&◌, Option, none, some, List, [], ◌∷◌, ◌++◌, Text, nat_eq, ltb, ◌==◌,
  text_Eq, if◌then◌else◌, Map, lookup, insert, erase, values, get_or, keep, ◌>>=◌, ◌>>◌, pure, lift,
  gets, fetch, modify, guard,
}
use contactless_airlock_lab.Protocol.{
  ChallengeBinding, ChallengeStatus, ChallengeRecord, TransactionState, ProvisioningState,
  confirmation_pending, trusted_device_challenge, cancelled_before_issuance, missing_challenge,
  unknown_token,
}
use contactless_airlock_lab.Challenges.{cancel, is_created}
use contactless_airlock_lab.Transitions.{
  transition_transaction, transition_provisioning, transaction_state_Eq, provisioning_state_Eq,
}
use contactless_airlock_lab.Engine.{
  Op, PaymentToken, ProvisioningRequest, TransactionRecord, CapReservation, TokenState, SpendKey,
  spend_key_Eq, is_pending, must, put_token, put_request, put_transaction, on_challenges,
}

-- `dailySpend.get(key) ?? 0`
abbrev pub spend_in : SpendKey → Map SpendKey ℕ → ℕ
spend_in key m = get_or 0 (lookup key m)

-- The new daily spend: an entry that falls to 0 is deleted.
unfoldable pub release_spend : CapReservation → Map SpendKey ℕ → Map SpendKey ℕ
release_spend r m =
    let remaining = spend_in r.spend_key m - r.amount_minor in
    if nat_eq remaining 0 then erase r.spend_key m else insert r.spend_key remaining m

-- The transaction is returned without its reservation, and written back by the caller.
unfoldable pub release_cap_reservation : TransactionRecord → Op TransactionRecord
release_cap_reservation t = elim t.cap_reservation [
  | none ↦ pure t
  | some r ↦ (do
    modify (λ s. record s { daily_spend = release_spend r s.daily_spend })
    pure (record t { cap_reservation = none }))
]

-- An item of the plan, with the challenge record read when the plan is made.
abbrev pub Planned : Type 0 → Type 0
Planned A = A × ChallengeRecord

module _ {A : Type 0} (challenge_id : A → Text) where
  -- `challenges.get(id)!`: reading the status of a missing record throws.
  unfoldable pub plan : List A → Op (List (Planned A))
  plan [] = pure []
  plan (x ∷ xs) = do
    found ← fetch (λ s. lookup (challenge_id x) s.challenges) missing_challenge
    rest ← plan xs
    pure ((x, found) ∷ rest)

abbrev pub challenge_id_of : Option ChallengeBinding → Text
challenge_id_of none = []
challenge_id_of (some b) = b.challenge_id

abbrev pub on_device : Text → Option ChallengeBinding → Bool
on_device device_id none = false
on_device device_id (some b) = b.trusted_device_id == device_id

abbrev pub awaits_device : Text → ProvisioningRequest → Bool
awaits_device device_id r = r.trusted_device_id == device_id && r.state == trusted_device_challenge

abbrev pub awaits_confirmation : Text → TransactionRecord → Bool
awaits_confirmation device_id t = on_device device_id t.challenge && t.state == confirmation_pending

-- Phase one: would cancelling this challenge throw?
abbrev pub is_premature : ℕ → ChallengeRecord → Bool
is_premature now c = is_created c.status && ltb now c.binding.issued_at

unfoldable pub assert_cancellable : {A : Type 0} → ℕ → List (Planned A) → Op (Unit {0})
assert_cancellable now [] = pure tt
assert_cancellable now ((x, c) ∷ rest) =
    guard (not (is_premature now c)) cancelled_before_issuance >> assert_cancellable now rest

-- What phase two does with a challenge: cancel it, take it as it is, or skip the item.
pub data Disposal : Type 0 where
  cancels keeps skips : Disposal

abbrev pub disposal : ChallengeStatus → Disposal
disposal ChallengeStatus.created = cancels
disposal ChallengeStatus.cancelled = keeps
disposal ChallengeStatus.expired = keeps
disposal ChallengeStatus.confirmed = skips

abbrev pub dispose : {A : Type 0} → Disposal → Text → ℕ → Op A → Op A → Op A
dispose cancels id now decline skip = on_challenges (cancel id now) >>= λ _. decline
dispose keeps id now decline skip = decline
dispose skips id now decline skip = skip

abbrev decline_token : PaymentToken → PaymentToken
decline_token t = if is_pending t.state then record t { state = TokenState.declined } else t

unfoldable pub decline_request : ProvisioningRequest → Op (List Text)
decline_request r = do
  state ← lift (transition_provisioning r.state ProvisioningState.declined)
  modify (put_request r.request_id (record r { state = state }))
  token ← must (λ s. s.tokens) r.token_id unknown_token
  modify (put_token r.token_id (decline_token token))
  pure (r.challenge.challenge_id ∷ [])

unfoldable pub decline_transaction : TransactionRecord → Op (List Text)
decline_transaction t = do
  state ← lift (transition_transaction t.state TransactionState.declined)
  released ← release_cap_reservation (record t { state = state })
  modify (put_transaction t.transaction_id released)
  pure (challenge_id_of t.challenge ∷ [])

unfoldable pub invalidate_requests : ℕ → List (Planned ProvisioningRequest) → Op (List Text)
invalidate_requests now [] = pure []
invalidate_requests now ((r, c) ∷ rest) = do
  ids ← dispose (disposal c.status) r.challenge.challenge_id now (decline_request r) (pure [])
  more ← invalidate_requests now rest
  pure (ids ++ more)

unfoldable pub invalidate_transactions : ℕ → List (Planned TransactionRecord) → Op (List Text)
invalidate_transactions now [] = pure []
invalidate_transactions now ((t, c) ∷ rest) = do
  ids ←
      dispose (disposal c.status) (challenge_id_of t.challenge) now (decline_transaction t)
        (pure [])
  more ← invalidate_transactions now rest
  pure (ids ++ more)

unfoldable pub invalidate_outstanding_challenges : Text → ℕ → Op (List Text)
invalidate_outstanding_challenges device_id now = do
  requests ← gets (λ s. keep (awaits_device device_id) (values s.provisioning))
  transactions ← gets (λ s. keep (awaits_confirmation device_id) (values s.transactions))
  planned ← plan (λ r. r.challenge.challenge_id) requests
  planned' ← plan (λ t. challenge_id_of t.challenge) transactions
  assert_cancellable now planned
  assert_cancellable now planned'
  ids ← invalidate_requests now planned
  more ← invalidate_transactions now planned'
  pure (ids ++ more)
