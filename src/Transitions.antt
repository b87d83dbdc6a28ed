-- ===== src/Transitions.antt =====
-- packages/state-machine/transitions.ts
pub mod Lifecycle
use contactless_airlock_lab.Prelude.{
  ◌≡◌, ◌↔◌, Bool, List, [], ◌∷◌, any, if◌then◌else◌, discrete_eq, discrete_eq_iff, Eq, ◌==◌, Result,
  ok, err,
}
use contactless_airlock_lab.Protocol.{
  Error, TransactionState, received, confirmation_pending, confirmed, declined, expired,
  reversal_requested, reversed, clearing_received, settled, exception, ProvisioningState, requested,
  risk_scored, trusted_device_challenge, approved, token_active_capped, token_active_full,
  invalid_transaction_transition, invalid_provisioning_transition,
}

unfoldable pub TransactionState-discrete : Discrete TransactionState
TransactionState-discrete = hlevel

unfoldable pub ProvisioningState-discrete : Discrete ProvisioningState
ProvisioningState-discrete = hlevel

instance abbrev pub transaction_state_Eq : Eq TransactionState
transaction_state_Eq = record {
  beq = discrete_eq TransactionState-discrete;
  beq_iff = discrete_eq_iff TransactionState-discrete;
}

instance abbrev pub provisioning_state_Eq : Eq ProvisioningState
provisioning_state_Eq = record {
  beq = discrete_eq ProvisioningState-discrete;
  beq_iff = discrete_eq_iff ProvisioningState-discrete;
}

-- TRANSACTION_TRANSITIONS
pub transaction_transitions : TransactionState → List TransactionState
transaction_transitions received = confirmation_pending ∷ TransactionState.declined ∷ []
transaction_transitions confirmation_pending =
    TransactionState.confirmed ∷ TransactionState.expired ∷ TransactionState.declined ∷ []
transaction_transitions TransactionState.confirmed = clearing_received ∷ reversal_requested ∷ []
transaction_transitions TransactionState.declined = []
transaction_transitions TransactionState.expired = reversal_requested ∷ clearing_received ∷ []
transaction_transitions reversal_requested = reversed ∷ clearing_received ∷ exception ∷ []
transaction_transitions reversed = clearing_received ∷ []
transaction_transitions clearing_received = settled ∷ exception ∷ []
transaction_transitions settled = []
transaction_transitions exception = []

-- PROVISIONING_TRANSITIONS
pub provisioning_transitions : ProvisioningState → List ProvisioningState
provisioning_transitions requested = risk_scored ∷ ProvisioningState.declined ∷ []
provisioning_transitions risk_scored =
    trusted_device_challenge ∷ approved ∷ ProvisioningState.declined ∷ []
provisioning_transitions trusted_device_challenge =
    approved ∷ ProvisioningState.declined ∷ ProvisioningState.expired ∷ []
provisioning_transitions approved = token_active_capped ∷ token_active_full ∷ []
provisioning_transitions token_active_capped = token_active_full ∷ ProvisioningState.declined ∷ []
provisioning_transitions token_active_full = []
provisioning_transitions ProvisioningState.declined = []
provisioning_transitions ProvisioningState.expired = []

unfoldable pub transition_transaction :
    TransactionState → TransactionState → Result Error TransactionState
unfolding transaction_transitions TransactionState-discrete
transition_transaction current next =
    if any (λ s. s == next) (transaction_transitions current)
    then ok next
    else err (invalid_transaction_transition current next)

unfoldable pub transition_provisioning :
    ProvisioningState → ProvisioningState → Result Error ProvisioningState
unfolding provisioning_transitions ProvisioningState-discrete
transition_provisioning current next =
    if any (λ s. s == next) (provisioning_transitions current)
    then ok next
    else err (invalid_provisioning_transition current next)
