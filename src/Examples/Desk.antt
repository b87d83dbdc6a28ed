-- ===== src/Examples/Desk.antt =====
-- packages/customer-operations/operationsStateMachine.ts: runs of the customer operations.
use contactless_airlock_lab.Prelude.{
  ◌≡◌, ◌≢◌, refl, true, text, text_Eq, text_eq, matches_id, matches_id_up_to, is_trimmed,
  strip_prefix, none, some, List, [], ◌∷◌, ok, lookup, insert, ◌>>=◌,
}
use contactless_airlock_lab.Operations.{
  device_loss, opened, contained, security_operator, supervisor, Actor, Case, Override, executed,
  transitions, transition_roles, CaseState-discrete, Role-discrete, is_reason, is_optional_id,
  matches_synthetic_ref,
}
use contactless_airlock_lab.Operations.Machine.{
  OpenInput, TransitionInput, ResetInput, ApproveInput, Request, opens, transits, requests_reset,
  approves_reset, case_response, CustomerOperations, Hashes, RandomIds, assert_id, assert_actor,
  append_audit, active_case, notify, must_override, once, first_or_replay, replay,
}
use contactless_airlock_lab.Operations.Machine.Calls.{
  moved, open_work, open_case, transition_work, apply_transition, transition, request_work,
  request_trust_reset, approve_work, add_approval, execute_override, approve_trust_reset, get_case,
  new_case,
}
use contactless_airlock_lab.Operations.Trail.{verify_audit, verify_audit-run}
use contactless_airlock_lab.Operations.Replay.{call, run, call_again}
use contactless_airlock_lab.Operations.DualControl.{AreSound}
use contactless_airlock_lab.Operations.TrustReset.{
  no_operations, run-AreSound, ApprovedByTwo, executed_by_two,
}
use contactless_airlock_lab.Operations.Moves.{Moved, transition-Moved, case_of_another_tenant}

-- The tenant, the key and the kind of a request, as its hash.
abbrev hashes : Hashes
hashes = record {
  request = λ r. elim r [
    | opens i ↦ i.idempotency_key
    | transits i ↦ i.idempotency_key
    | requests_reset i ↦ i.idempotency_key
    | approves_reset i ↦ i.idempotency_key
  ];
  event = λ body. body.event_id;
}

abbrev ids : RandomIds
ids = record {
  fresh = text "id-1";
  first_event = text "event-1";
  second_event = text "event-2";
  intent = text "intent-1";
}

abbrev operator : Actor
operator = record {
  tenant_id = text "tenant-a";
  actor_id = text "operator-a";
  role = security_operator;
  device_id = none;
}

abbrev chief : Actor
chief = record operator { actor_id = text "chief-a"; role = supervisor }

abbrev opening : OpenInput
opening = record {
  tenant_id = text "tenant-a";
  case_type = device_loss;
  subject_ref = text "synthetic-subject";
  subject_device_id = some (text "device-a");
  reason = text "lost device";
  correlation_id = text "correlation-a";
  actor = operator;
  idempotency_key = text "key-1";
  ttl_ms = 600000;
  now = 1000000;
  case_id = some (text "case-a");
}

abbrev containing : TransitionInput
containing = record {
  tenant_id = text "tenant-a";
  case_id = text "case-a";
  next_state = contained;
  reason = text "contained it";
  actor = operator;
  idempotency_key = text "key-2";
  now = 1001000;
  proof_method = none;
}

abbrev resetting : ResetInput
resetting = record {
  tenant_id = text "tenant-a";
  case_id = text "case-a";
  reason = text "reset trust";
  actor = operator;
  idempotency_key = text "key-3";
  ttl_ms = 60000;
  now = 1002000;
  override_id = some (text "override-a");
}

abbrev approving : ApproveInput
approving = record {
  tenant_id = text "tenant-a";
  override_id = text "override-a";
  reason = text "approved it";
  actor = operator;
  idempotency_key = text "key-4";
  now = 1003000;
}

abbrev approving_too : ApproveInput
approving_too = record approving { actor = chief; idempotency_key = text "key-5" }

abbrev whole_reset : List (RandomIds × Request)
whole_reset =
    (ids, opens opening)
    ∷ (ids, transits containing)
    ∷ (ids, requests_reset resetting)
    ∷ (ids, approves_reset approving)
    ∷ (ids, approves_reset approving_too)
    ∷ []

abbrev executed_override : Override
executed_override = record {
  tenant_id = text "tenant-a";
  override_id = text "override-a";
  case_id = text "case-a";
  state = executed;
  reason = text "reset trust";
  requested_by = text "operator-a";
  requested_at = 1002000;
  expires_at = 1062000;
  approvals =
      record { actor_id = text "operator-a"; role = security_operator; approved_at = 1003000 }
      ∷ record { actor_id = text "chief-a"; role = supervisor; approved_at = 1003000 }
      ∷ [];
  executed_at = some 1003000;
}

reset_executed :
    lookup (text "tenant-a:override-a") (run hashes whole_reset no_operations).overrides
    ≡ some executed_override
unfolding open_case open_work transition transition_work apply_transition request_trust_reset
    request_work approve_trust_reset approve_work add_approval execute_override once first_or_replay
    replay assert_id assert_actor append_audit active_case notify must_override transitions
    transition_roles CaseState-discrete Role-discrete is_reason is_optional_id matches_synthetic_ref
    matches_id matches_id_up_to is_trimmed strip_prefix lookup insert text_eq ◌>>=◌
reset_executed = refl

executed_by_two_example : ApprovedByTwo executed_override
executed_by_two_example =
    executed_by_two hashes whole_reset (text "tenant-a:override-a") executed_override reset_executed
      refl

run-AreSound_example : AreSound (run hashes whole_reset no_operations).overrides
run-AreSound_example = run-AreSound hashes whole_reset no_operations tt

abbrev other_ids : RandomIds
other_ids = record ids { fresh = text "id-2"; intent = text "intent-2" }

call_again_example :
    call hashes other_ids
      (opens opening)
      (run hashes whole_reset (call hashes ids (opens opening) no_operations).1)
    ≡ (
      (call hashes ids (opens opening) no_operations).0,
      run hashes whole_reset (call hashes ids (opens opening) no_operations).1,
    )
call_again_example = call_again hashes ids other_ids (opens opening) whole_reset no_operations

abbrev opened_case : Case
opened_case = record {
  tenant_id = text "tenant-a";
  case_id = text "case-a";
  case_type = device_loss;
  state = opened;
  subject_ref = text "synthetic-subject";
  subject_device_id = some (text "device-a");
  reason = text "lost device";
  correlation_id = text "correlation-a";
  opened_at = 1000000;
  expires_at = 1600000;
  updated_at = 1000000;
}

abbrev one_case : CustomerOperations
one_case = record no_operations { cases = (text "tenant-a:case-a", opened_case) ∷ [] }

contains_case : transition_work hashes ids containing one_case ≡ (
  ok (case_response (moved contained 1001000 opened_case)),
  (transition_work hashes ids containing one_case).1,
)
unfolding transition_work apply_transition assert_id assert_actor append_audit active_case notify
    transitions transition_roles CaseState-discrete Role-discrete is_reason is_optional_id
    matches_id matches_id_up_to is_trimmed lookup insert text_eq ◌>>=◌
contains_case = refl

transition-Moved_example :
    Moved containing one_case (transition_work hashes ids containing one_case).1
transition-Moved_example =
    transition-Moved hashes ids containing (case_response (moved contained 1001000 opened_case))
      one_case (transition_work hashes ids containing one_case).1 contains_case

-- The tenant `a` opens a case of the id `b:c`, and the tenant `a:b` reads it.
abbrev colon_opening : OpenInput
colon_opening = record opening {
  tenant_id = text "a";
  case_id = some (text "b:c");
  actor = record opening.actor { tenant_id = text "a" };
}

abbrev colon_case : CustomerOperations
colon_case = (open_work hashes ids colon_opening no_operations).1

colon_opened :
    open_work hashes ids colon_opening no_operations
    ≡ (ok (case_response (new_case colon_opening (text "b:c"))), colon_case)
unfolding open_work assert_id assert_actor append_audit notify is_reason is_optional_id
    matches_synthetic_ref strip_prefix matches_id matches_id_up_to is_trimmed lookup insert text_eq
    ◌>>=◌
colon_opened = refl

colon_tenant : matches_id (text "a:b") ≡ true
unfolding matches_id matches_id_up_to
colon_tenant = refl

colon_id : matches_id (text "c") ≡ true
unfolding matches_id matches_id_up_to
colon_id = refl

case_of_another_tenant_example :
    (value : Case) × (get_case (text "a:b") (text "c") colon_case ≡ (ok value, colon_case))
    × (value.tenant_id ≡ text "a")
    × (value.tenant_id ≢ text "a:b")
    × (value.subject_ref ≡ colon_opening.subject_ref)
case_of_another_tenant_example =
    case_of_another_tenant hashes ids (text "b") (text "c") colon_opening
      (case_response (new_case colon_opening (text "b:c"))) no_operations colon_case refl
      colon_tenant colon_id colon_opened

none_verifies : verify_audit hashes no_operations ≡ true
unfolding verify_audit
none_verifies = refl

verify_audit-run_example : verify_audit hashes (run hashes whole_reset no_operations) ≡ true
verify_audit-run_example = verify_audit-run hashes whole_reset no_operations none_verifies
