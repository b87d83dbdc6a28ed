-- ===== src/Transitions/Lifecycle.antt =====
-- packages/state-machine/transitions.ts: histories of states that the two tables allow.
use contactless_airlock_lab.Prelude.{ℕ, ◌≤◌, ◌<◌, ◌≡◌, ◌⊎◌, inl, List, [], ◌∷◌, length, arith, ok}
use contactless_airlock_lab.Protocol.{
  TransactionState, received, confirmation_pending, reversal_requested, reversed, clearing_received,
  settled, exception, ProvisioningState, requested, risk_scored, trusted_device_challenge, approved,
  token_active_capped, token_active_full,
}
use contactless_airlock_lab.Transitions.{transition_transaction, transition_provisioning}

-- A history: each state is entered from the one before it by `transition_transaction`.
abbrev pub IsHistory : TransactionState → List TransactionState → Type 0
IsHistory s [] = Unit
IsHistory s (t ∷ ts) = (transition_transaction s t ≡ ok t) × IsHistory t ts

abbrev pub IsProvisioningHistory : ProvisioningState → List ProvisioningState → Type 0
IsProvisioningHistory s [] = Unit
IsProvisioningHistory s (t ∷ ts) = (transition_provisioning s t ≡ ok t) × IsProvisioningHistory t ts

-- How many transitions may still come.
abbrev pub remaining : TransactionState → ℕ
remaining received = 6
remaining confirmation_pending = 5
remaining TransactionState.confirmed = 4
remaining TransactionState.expired = 4
remaining reversal_requested = 3
remaining reversed = 2
remaining clearing_received = 1
remaining TransactionState.declined = 0
remaining settled = 0
remaining exception = 0

abbrev pub provisioning_remaining : ProvisioningState → ℕ
provisioning_remaining requested = 5
provisioning_remaining risk_scored = 4
provisioning_remaining trusted_device_challenge = 3
provisioning_remaining approved = 2
provisioning_remaining token_active_capped = 1
provisioning_remaining token_active_full = 0
provisioning_remaining ProvisioningState.declined = 0
provisioning_remaining ProvisioningState.expired = 0

remaining-step :
    (s t : TransactionState) → transition_transaction s t ≡ ok t → remaining t < remaining s
unfolding transition_transaction
remaining-step received t h = ground arith
remaining-step confirmation_pending t h = ground arith
remaining-step _ t h = ground arith

-- A transaction makes at most as many transitions as its state allows, six from `received`.
pub history_bounded :
    (s : TransactionState) (ts : List TransactionState) → IsHistory s ts → length ts ≤ remaining s
history_bounded s [] h = omega arith
history_bounded s (t ∷ ts) h = omega (arith, remaining-step s t h.0, history_bounded t ts h.1)

provisioning_remaining-step :
    (s t : ProvisioningState)
    → transition_provisioning s t ≡ ok t
    → provisioning_remaining t < provisioning_remaining s
unfolding transition_provisioning
provisioning_remaining-step requested t h = ground arith
provisioning_remaining-step _ t h = ground arith

-- A provisioning request makes at most as many transitions as its state allows, five from
-- `requested`.
pub provisioning_history_bounded :
    (s : ProvisioningState) (ts : List ProvisioningState)
    → IsProvisioningHistory s ts
    → length ts ≤ provisioning_remaining s
provisioning_history_bounded s [] h = omega arith
provisioning_history_bounded s (t ∷ ts) h =
    omega (arith, provisioning_remaining-step s t h.0, provisioning_history_bounded t ts h.1)

-- The last state of a history.
abbrev pub final : TransactionState → List TransactionState → TransactionState
final s [] = s
final s (t ∷ ts) = final t ts

-- Money has been asked back, or was never confirmed.
abbrev pub IsReversal : TransactionState → Type 0
IsReversal s = (s ≡ TransactionState.expired) ⊎ (s ≡ reversal_requested) ⊎ (s ≡ reversed)

abbrev pub Occurs : TransactionState → List TransactionState → Type 0
Occurs s [] = ⊥
Occurs s (t ∷ ts) = (s ≡ t) ⊎ Occurs s ts

step_into_settled :
    (s t : TransactionState)
    → transition_transaction s t ≡ ok t
    → t ≡ settled
    → s ≡ clearing_received
unfolding transition_transaction
step_into_settled received t h e = ground arith
step_into_settled _ t h e = ground arith

-- A transaction history that ends settled began settled or in clearing_received, or has entered
-- clearing_received.
pub settled_needs_clearing :
    (s : TransactionState) (ts : List TransactionState)
    → IsHistory s ts
    → final s ts ≡ settled
    → (s ≡ settled) ⊎ (s ≡ clearing_received) ⊎ Occurs clearing_received ts
settled_needs_clearing s [] h e = inl e
settled_needs_clearing s (t ∷ ts) h e =
    ground (arith, settled_needs_clearing t ts h.1 e, step_into_settled s t h.0)
