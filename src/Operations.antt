-- ===== src/Operations.antt =====
-- packages/customer-operations/operationsStateMachine.ts: the data of the customer operations, the
-- transition tables and the tests of the inputs. Every date is valid.
pub mod Machine
pub mod Frames
pub mod Replay
pub mod DualControl
pub mod TrustReset
pub mod Trail
pub mod Moves
use contactless_airlock_lab.Prelude.{
  ◌≡◌, ℕ, ◌*◌, Bool, true, false, not, ◌&&◌, ◌||◌, Option, none, some, List, [], ◌∷◌, ◌++◌, Text,
  text, Map, any, leb, length, is_empty, is_trimmed, strip_prefix, matches_id, matches_id_up_to, Eq,
  discrete_eq, discrete_eq_iff, ◌==◌, Exec, if◌then◌else◌, guard, pure, raise,
}

-- OperationsCaseType
pub data CaseType : Type 0 where
  device_loss : CaseType
  account_recovery : CaseType
  false_decline_review : CaseType
  fraudulent_approval_dispute : CaseType
  compromise_response : CaseType

-- OperationsCaseState
pub data CaseState : Type 0 where
  opened : CaseState
  contained : CaseState
  proof_verified : CaseState
  trust_reset_pending : CaseState
  under_review : CaseState
  payment_frozen : CaseState
  eradicated : CaseState
  upheld : CaseState
  overturned : CaseState
  remediated : CaseState
  resolved : CaseState
  expired : CaseState
  cancelled : CaseState

-- OperationsRole
pub data Role : Type 0 where
  customer : Role
  fraud_analyst : Role
  security_operator : Role
  supervisor : Role
  recovery_officer : Role
  system : Role

unfoldable pub CaseState-discrete : Discrete CaseState
CaseState-discrete = hlevel

unfoldable pub Role-discrete : Discrete Role
Role-discrete = hlevel

instance abbrev pub case_state_Eq : Eq CaseState
case_state_Eq = record {
  beq = discrete_eq CaseState-discrete;
  beq_iff = discrete_eq_iff CaseState-discrete;
}

instance abbrev pub role_Eq : Eq Role
role_Eq = record { beq = discrete_eq Role-discrete; beq_iff = discrete_eq_iff Role-discrete }

-- OperationsActor
pub record Actor : Type 0 where
  pub tenant_id : Text
  pub actor_id : Text
  pub role : Role
  pub device_id : Option Text

-- OperationsCase
pub record Case : Type 0 where
  pub tenant_id : Text
  pub case_id : Text
  pub case_type : CaseType
  pub state : CaseState
  pub subject_ref : Text
  pub subject_device_id : Option Text
  pub reason : Text
  pub correlation_id : Text
  pub opened_at : ℕ
  pub expires_at : ℕ
  pub updated_at : ℕ

pub record Approval : Type 0 where
  pub actor_id : Text
  pub role : Role
  pub approved_at : ℕ

pub data OverrideState : Type 0 where
  pending : OverrideState
  executed : OverrideState
  lapsed : OverrideState
  withdrawn : OverrideState

-- SensitiveOverride; its states "expired" and "cancelled" are `lapsed` and `withdrawn`
pub record Override : Type 0 where
  pub tenant_id : Text
  pub override_id : Text
  pub case_id : Text
  pub state : OverrideState
  pub reason : Text
  pub requested_by : Text
  pub requested_at : ℕ
  pub expires_at : ℕ
  pub approvals : List Approval
  pub executed_at : Option ℕ

-- The `type` of an audit event: `case_reached s` is `case.${s}`.
pub data EventType : Type 0 where
  case_reached : CaseState → EventType
  trust_reset_requested : EventType
  trust_reset_approved : EventType
  trust_reset_executed : EventType
  trust_reset_expired : EventType

-- OperationsAuditEvent without its hash
pub record EventBody : Type 0 where
  pub sequence : ℕ
  pub event_id : Text
  pub tenant_id : Text
  pub case_id : Text
  pub type : EventType
  pub actor_id : Text
  pub actor_role : Role
  pub reason : Text
  pub correlation_id : Text
  pub occurred_at : ℕ
  pub previous_hash : Text

pub record Event : Type 0 where
  pub body : EventBody
  pub hash : Text

pub data Template : Type 0 where
  case_opened : Template
  case_state_changed : Template
  approval_requested : Template
  trust_reset_completed : Template

-- NotificationOutboxIntent; its event key and topic follow from the other fields
pub record Intent : Type 0 where
  pub intent_id : Text
  pub tenant_id : Text
  pub case_id : Text
  pub template : Template
  pub synthetic_recipient_ref : Text
  pub created_at : ℕ

-- The errors, by their messages.
pub data OperationsError : Type 0 where
  invalid_id : OperationsError
  invalid_reason : OperationsError
  cross_tenant_actor : OperationsError
  non_synthetic_subject : OperationsError
  invalid_case_ttl : OperationsError
  case_exists : OperationsError
  case_not_found : OperationsError
  case_is_terminal : OperationsError
  case_has_expired : OperationsError
  needs_dual_control : OperationsError
  invalid_transition : OperationsError
  actor_not_authorized : OperationsError
  proof_not_applicable : OperationsError
  requester_not_authorized : OperationsError
  invalid_approval_ttl : OperationsError
  not_eligible : OperationsError
  override_exists : OperationsError
  approver_not_authorized : OperationsError
  override_not_found : OperationsError
  override_is_terminal : OperationsError
  override_has_expired : OperationsError
  duplicate_approver : OperationsError
  affected_device : OperationsError
  idempotency_conflict : OperationsError

-- TRANSITIONS
unfoldable pub transitions : CaseType → CaseState → List CaseState
transitions device_loss opened = contained ∷ cancelled ∷ []
transitions device_loss contained = trust_reset_pending ∷ resolved ∷ []
transitions device_loss trust_reset_pending = resolved ∷ []
transitions account_recovery opened = proof_verified ∷ cancelled ∷ []
transitions account_recovery proof_verified = trust_reset_pending ∷ []
transitions account_recovery trust_reset_pending = resolved ∷ []
transitions false_decline_review opened = under_review ∷ cancelled ∷ []
transitions false_decline_review under_review = upheld ∷ overturned ∷ []
transitions fraudulent_approval_dispute opened = payment_frozen ∷ cancelled ∷ []
transitions fraudulent_approval_dispute payment_frozen = under_review ∷ []
transitions fraudulent_approval_dispute under_review = upheld ∷ remediated ∷ []
transitions compromise_response opened = contained ∷ []
transitions compromise_response contained = eradicated ∷ trust_reset_pending ∷ []
transitions compromise_response eradicated = resolved ∷ []
transitions compromise_response trust_reset_pending = resolved ∷ []
transitions _ _ = []

-- TRANSITION_ROLES
unfoldable pub transition_roles : CaseState → List Role
transition_roles contained = fraud_analyst ∷ security_operator ∷ supervisor ∷ []
transition_roles proof_verified = recovery_officer ∷ security_operator ∷ []
transition_roles under_review = fraud_analyst ∷ supervisor ∷ []
transition_roles payment_frozen = fraud_analyst ∷ security_operator ∷ supervisor ∷ []
transition_roles eradicated = security_operator ∷ supervisor ∷ []
transition_roles upheld = fraud_analyst ∷ supervisor ∷ []
transition_roles overturned = fraud_analyst ∷ supervisor ∷ []
transition_roles remediated = fraud_analyst ∷ security_operator ∷ supervisor ∷ []
transition_roles resolved = security_operator ∷ supervisor ∷ []
transition_roles cancelled = customer ∷ fraud_analyst ∷ security_operator ∷ supervisor ∷ []
transition_roles _ = []

-- APPROVER_ROLES
abbrev pub is_approver : Role → Bool
is_approver security_operator = true
is_approver supervisor = true
is_approver recovery_officer = true
is_approver _ = false

-- The states that `#activeCase` refuses.
abbrev pub is_terminal : CaseState → Bool
is_terminal resolved = true
is_terminal upheld = true
is_terminal overturned = true
is_terminal remediated = true
is_terminal expired = true
is_terminal cancelled = true
is_terminal _ = false

-- The cases that a trust reset can be requested for.
abbrev pub is_eligible : CaseType → CaseState → Bool
is_eligible account_recovery proof_verified = true
is_eligible device_loss contained = true
is_eligible compromise_response contained = true
is_eligible _ _ = false

-- SYNTHETIC_REF
unfoldable pub matches_synthetic_ref : Text → Bool
matches_synthetic_ref s = elim (strip_prefix (text "synthetic-") s) [
  | none ↦ false
  | some rest ↦ matches_id_up_to 118 rest
]

-- `assertReason`, as a test
unfoldable pub is_reason : Text → Bool
is_reason s = is_trimmed s && leb 3 (length s) && leb (length s) 512

-- `if (id) assertId(id)`, as a test
unfoldable pub is_optional_id : Option Text → Bool
is_optional_id none = true
is_optional_id (some s) = is_empty s || matches_id s

abbrev pub max_ttl_ms : ℕ
max_ttl_ms = 30 * 24 * 60 * 60 * 1000

abbrev pub max_override_ttl_ms : ℕ
max_override_ttl_ms = 24 * 60 * 60 * 1000
