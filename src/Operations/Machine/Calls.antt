-- ===== src/Operations/Machine/Calls.antt =====
-- packages/customer-operations/operationsStateMachine.ts: the public methods that change the state.
-- Each `*_work` is the function that the method hands to `#once`.
use contactless_airlock_lab.Prelude.{
  ℕ, ◌+◌, Bool, true, false, not, ◌&&◌, Option, none, some, [], ◌∷◌, ◌++◌, Text, text, leb, length,
  nat_eq, any, is_empty, get_or, ◌==◌, text_Eq, has, lookup, if◌then◌else◌, ◌>>=◌, ◌>>◌, pure, gets,
  fetch, modify, guard, raise,
}
use contactless_airlock_lab.Operations.{
  CaseType, account_recovery, CaseState, CaseState-discrete, Role-discrete, case_state_Eq, role_Eq,
  opened, proof_verified, trust_reset_pending, resolved, Case, Approval, Override, pending,
  executed, lapsed, case_reached, trust_reset_requested, trust_reset_approved, trust_reset_executed,
  trust_reset_expired, case_opened, case_state_changed, approval_requested, trust_reset_completed,
  transitions, transition_roles, is_approver, is_eligible, is_reason, is_optional_id,
  matches_synthetic_ref, max_ttl_ms, max_override_ttl_ms, invalid_id, invalid_reason,
  non_synthetic_subject, invalid_case_ttl, case_exists, case_not_found, needs_dual_control,
  invalid_transition, actor_not_authorized, proof_not_applicable, requester_not_authorized,
  invalid_approval_ttl, not_eligible, override_exists, approver_not_authorized,
  override_is_terminal, override_has_expired, duplicate_approver, affected_device,
}
use contactless_airlock_lab.Operations.Machine.{
  OpenInput, TransitionInput, ResetInput, ApproveInput, opens, transits, requests_reset,
  approves_reset, Response, case_response, override_response, Op, Hashes, RandomIds, scoped,
  put_case, put_override, assert_id, assert_actor, as_system, ProofMethod, existing_passkey,
  in_person_strong_identity, bank_verified_strong_identity, notify, must_override, append_audit,
  active_case, once,
}

-- `input.ttlMs < 60_000 || input.ttlMs > maximum`, negated
abbrev pub is_ttl : ℕ → ℕ → Bool
is_ttl maximum ttl = leb 60000 ttl && leb ttl maximum

abbrev pub new_case : OpenInput → Text → Case
new_case input case_id = record {
  tenant_id = input.tenant_id;
  case_id = case_id;
  case_type = input.case_type;
  state = opened;
  subject_ref = input.subject_ref;
  subject_device_id = input.subject_device_id;
  reason = input.reason;
  correlation_id = input.correlation_id;
  opened_at = input.now;
  expires_at = input.now + input.ttl_ms;
  updated_at = input.now;
}

abbrev pub new_override : ResetInput → Text → Text → Override
new_override input case_id override_id = record {
  tenant_id = input.tenant_id;
  override_id = override_id;
  case_id = case_id;
  state = pending;
  reason = input.reason;
  requested_by = input.actor.actor_id;
  requested_at = input.now;
  expires_at = input.now + input.ttl_ms;
  approvals = [];
  executed_at = none;
}

abbrev pub moved : CaseState → ℕ → Case → Case
moved state now value = record value { state = state; updated_at = now }

-- The states that `transition` leaves to the dual control.
abbrev pub is_dual_control : CaseState → CaseState → Bool
is_dual_control trust_reset_pending current = true
is_dual_control resolved trust_reset_pending = true
is_dual_control _ _ = false

-- `value.subjectDeviceId && actor.deviceId === value.subjectDeviceId`
abbrev pub is_affected_device : Option Text → Option Text → Bool
is_affected_device (some subject) (some device) = not (is_empty subject) && device == subject
is_affected_device _ _ = false

abbrev pub new_approval : ApproveInput → Approval
new_approval input = record {
  actor_id = input.actor.actor_id;
  role = input.actor.role;
  approved_at = input.now;
}

module _ (hashes : Hashes) (ids : RandomIds) where
  unfoldable pub open_work : OpenInput → Op Response
  open_work input = do
    assert_actor input.tenant_id input.actor
    guard (matches_synthetic_ref input.subject_ref) non_synthetic_subject
    guard (is_optional_id input.subject_device_id) invalid_id
    guard (is_reason input.reason) invalid_reason
    assert_id input.correlation_id
    guard (is_ttl max_ttl_ms input.ttl_ms) invalid_case_ttl
    let case_id = get_or ids.fresh input.case_id
    assert_id case_id
    known ← gets (λ s. has (scoped input.tenant_id case_id) s.cases)
    guard (not known) case_exists
    let value = new_case input case_id
    modify (put_case (scoped input.tenant_id case_id) value)
    append_audit hashes value (case_reached opened) input.actor input.reason input.now
        ids.first_event
    notify value case_opened input.now ids.intent
    pure (case_response value)

  unfoldable pub open_case : OpenInput → Op Response
  open_case input = once hashes (opens input) (open_work input)

  -- `transition`, from the case on.
  unfoldable pub apply_transition : TransitionInput → Case → Op Response
  unfolding transitions transition_roles CaseState-discrete Role-discrete
  apply_transition input value = do
    guard (not (is_dual_control input.next_state value.state)) needs_dual_control
    guard (any (λ s. s == input.next_state) (transitions value.case_type value.state))
        invalid_transition
    guard (any (λ r. r == input.actor.role) (transition_roles input.next_state))
        actor_not_authorized
    let done = moved input.next_state input.now value
    modify (put_case (scoped input.tenant_id input.case_id) done)
    append_audit hashes done (case_reached input.next_state) input.actor input.reason input.now
        ids.first_event
    notify done case_state_changed input.now ids.intent
    pure (case_response done)

  unfoldable pub transition_work : TransitionInput → Op Response
  transition_work input = do
    assert_actor input.tenant_id input.actor
    guard (is_reason input.reason) invalid_reason
    value ← active_case hashes input.tenant_id input.case_id input.now ids.first_event
    apply_transition input value

  unfoldable pub transition : TransitionInput → Op Response
  transition input = once hashes (transits input) (transition_work input)

  unfoldable pub request_work : ResetInput → Op Response
  request_work input = do
    assert_actor input.tenant_id input.actor
    guard (is_reason input.reason) invalid_reason
    guard (is_approver input.actor.role) requester_not_authorized
    guard (is_ttl max_override_ttl_ms input.ttl_ms) invalid_approval_ttl
    value ← active_case hashes input.tenant_id input.case_id input.now ids.first_event
    guard (is_eligible value.case_type value.state) not_eligible
    let override_id = get_or ids.fresh input.override_id
    assert_id override_id
    known ← gets (λ s. has (scoped input.tenant_id override_id) s.overrides)
    guard (not known) override_exists
    let held = moved trust_reset_pending input.now value
    let override = new_override input held.case_id override_id
    modify (put_case (scoped input.tenant_id input.case_id) held)
    modify (put_override (scoped input.tenant_id override_id) override)
    append_audit hashes held trust_reset_requested input.actor input.reason input.now
        ids.first_event
    notify held approval_requested input.now ids.intent
    pure (override_response override)

  unfoldable pub request_trust_reset : ResetInput → Op Response
  request_trust_reset input = once hashes (requests_reset input) (request_work input)

  -- The override whose window has passed.
  unfoldable pub expire_override : ApproveInput → Case → Override → Op Response
  expire_override input value override = do
    modify (
        put_override (scoped input.tenant_id input.override_id)
          (record override { state = lapsed }))
    append_audit hashes value trust_reset_expired (as_system input.actor)
        (text "approval window expired") input.now ids.first_event
    raise override_has_expired

  -- The second approval: the override is executed and its case resolved.
  unfoldable pub execute_override : ApproveInput → Case → Override → Op Response
  execute_override input value override = do
    let done = record override { state = executed; executed_at = some input.now }
    let closed = moved resolved input.now value
    modify (put_override (scoped input.tenant_id input.override_id) done)
    modify (put_case (scoped input.tenant_id override.case_id) closed)
    append_audit hashes closed trust_reset_executed (as_system input.actor) override.reason
        input.now ids.second_event
    notify closed trust_reset_completed input.now ids.intent
    pure (override_response done)

  unfoldable pub add_approval : ApproveInput → Case → Override → Op Response
  add_approval input value override = do
    guard (not (any (λ a. a.actor_id == input.actor.actor_id) override.approvals))
        duplicate_approver
    guard (not (is_affected_device value.subject_device_id input.actor.device_id)) affected_device
    let more = record override { approvals = override.approvals ++ new_approval input ∷ [] }
    modify (put_override (scoped input.tenant_id input.override_id) more)
    append_audit hashes value trust_reset_approved input.actor input.reason input.now
        ids.first_event
    if nat_eq (length more.approvals) 2
        then execute_override input value more
        else pure (override_response more)

  unfoldable pub approve_work : ApproveInput → Op Response
  approve_work input = do
    assert_actor input.tenant_id input.actor
    guard (is_reason input.reason) invalid_reason
    guard (is_approver input.actor.role) approver_not_authorized
    override ← must_override input.tenant_id input.override_id
    value ← active_case hashes input.tenant_id override.case_id input.now ids.first_event
    guard (elim override.state [ pending ↦ true | _ ↦ false ]) override_is_terminal
    if leb override.expires_at input.now
        then expire_override input value override
        else add_approval input value override

  unfoldable pub approve_trust_reset : ApproveInput → Op Response
  approve_trust_reset input = once hashes (approves_reset input) (approve_work input)

unfoldable pub get_case : Text → Text → Op Case
get_case tenant case_id = do
  assert_id tenant
  assert_id case_id
  fetch (λ s. lookup (scoped tenant case_id) s.cases) case_not_found

-- `proofMethod`, as the text that `verifyRecoveryProof` adds to the reason
abbrev pub method_name : ProofMethod → Text
method_name existing_passkey = text "existing_passkey"
method_name in_person_strong_identity = text "in_person_strong_identity"
method_name bank_verified_strong_identity = text "bank_verified_strong_identity"

-- The transition that `verifyRecoveryProof` asks for.
abbrev pub proof_transition : ProofMethod → TransitionInput → TransitionInput
proof_transition method input = record input {
  next_state = proof_verified;
  proof_method = some method;
  reason = input.reason ++ text " [proof:" ++ method_name method ++ text "]";
}

abbrev pub is_account_recovery : CaseType → Bool
is_account_recovery account_recovery = true
is_account_recovery _ = false

unfoldable pub verify_recovery_proof :
    Hashes → RandomIds → ProofMethod → TransitionInput → Op Response
verify_recovery_proof hashes ids method input = do
  value ← get_case input.tenant_id input.case_id
  guard (is_account_recovery value.case_type) proof_not_applicable
  transition hashes ids (proof_transition method input)
