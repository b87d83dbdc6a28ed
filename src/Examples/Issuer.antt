-- ===== src/Examples/Issuer.antt =====
-- apps/issuer-simulator/airlockEngine.ts: runs of the issuer engine.
use contactless_airlock_lab.Prelude.{
  ◌≡◌, refl, text, text_Eq, text_eq, none, some, List, [], ◌∷◌, ok, err, lookup, insert, erase,
  ◌>>=◌, arith,
}
use native.Mathlib.Decide.{ℕ_discrete}
use contactless_airlock_lab.Protocol.{
  ChallengeBinding, ChallengeRecord, confirmed, SignedApproval, TransactionState, ProvisioningState,
  trusted_device_challenge, confirmation_pending, Error, unknown_token,
  invalid_transaction_transition, clearing_received,
}
use contactless_airlock_lab.Protocol.Canonical.{
  canonicalize_binding, validate_binding, common_tests, ordered_fields, collect, field_value,
  Fields-discrete,
}
use contactless_airlock_lab.Transitions.{transition_transaction, transition_provisioning}
use contactless_airlock_lab.Crypto.{approval_algorithm, verify_approval}
use contactless_airlock_lab.Challenges.{create, consume, cancel, new_binding, new_record}
use contactless_airlock_lab.Engine.{
  Engine, TrustedDevice, DeviceStatus, TransactionRecord, ProvisioningRequest, Activation, SpendKey,
  require_active_device,
}
use contactless_airlock_lab.Engine.Devices.{revoke_trusted_device, remove_device}
use contactless_airlock_lab.Engine.Invalidation.{
  plan, assert_cancellable, invalidate_requests, invalidate_transactions, decline_request,
  decline_transaction, release_cap_reservation, release_spend, invalidate_outstanding_challenges,
}
use contactless_airlock_lab.Engine.Provisioning.{approve_provisioning}
use contactless_airlock_lab.Engine.Transactions.{
  AuthorizeInput, admit, reserve, issue_challenge, authorize, confirm_transaction_with,
  expire_and_reverse, receive_clearing, confirmation_challenge, new_transaction, spend_of,
}
use contactless_airlock_lab.Engine.Calls.{Call, run, clear, reverse}
use contactless_airlock_lab.Engine.Caps.{authorize_refused, reservation_of}
use contactless_airlock_lab.Engine.Reversal.{
  Authorized, authorize-Authorized, reverse-authorize, reversed_record,
}
use contactless_airlock_lab.Engine.Revoked.{revoked_never_approves, revoked_never_confirms}
use contactless_airlock_lab.Engine.Confirmation.{confirm_with_any_challenge, receive_clearing_lem}
use contactless_airlock_lab.Examples.{
  example_crypto, example_platform, pem, device, token, engine, purchase, challenge_id, enrolment,
  approval,
}

abbrev pending_purchase : TransactionRecord
pending_purchase =
    new_transaction token purchase confirmation_pending
      (new_binding (confirmation_challenge token purchase) challenge_id 1000000)
      (reservation_of token purchase 1000000)

abbrev authorized_engine : Engine
authorized_engine =
    (authorize example_platform purchase 1000000 challenge_id (text "event-a") engine).1

authorizes_purchase :
    authorize example_platform purchase 1000000 challenge_id (text "event-a") engine
    ≡ (ok pending_purchase, authorized_engine)
unfolding authorize admit reserve issue_challenge require_active_device create
    transition_transaction lookup insert text_eq ◌>>=◌
authorizes_purchase = refl

authorize-Authorized_example :
    Authorized purchase 1000000 challenge_id pending_purchase engine authorized_engine
authorize-Authorized_example =
    authorize-Authorized example_platform purchase 1000000 challenge_id (text "event-a")
      pending_purchase engine authorized_engine authorizes_purchase

abbrev spend_key : SpendKey
spend_key = (text "token-a", 0)

reverse-authorize_example :
    ((expire_and_reverse example_platform
        (text "transaction-a")
        1030000
        (text "event-b")
        authorized_engine).0
      ≡ ok (reversed_record pending_purchase))
    × (spend_of spend_key
          (expire_and_reverse example_platform
            (text "transaction-a")
            1030000
            (text "event-b")
            authorized_engine).1
        ≡ spend_of spend_key engine)
reverse-authorize_example =
    reverse-authorize example_platform purchase 1000000 1030000 challenge_id (text "event-a")
      (text "event-b") pending_purchase engine authorized_engine spend_key authorizes_purchase
      (omega arith)

abbrev unknown_purchase : AuthorizeInput
unknown_purchase = record purchase { token_id = text "token-b" }

refuses_purchase :
    authorize example_platform unknown_purchase 1000000 challenge_id (text "event-a") engine
    ≡ (err unknown_token, engine)
unfolding authorize admit lookup text_eq ◌>>=◌
refuses_purchase = refl

authorize_refused_example : engine ≡ engine
authorize_refused_example =
    authorize_refused example_platform unknown_purchase 1000000 challenge_id (text "event-a")
      unknown_token engine engine refuses_purchase

abbrev purchase_binding : ChallengeBinding
purchase_binding = new_binding (confirmation_challenge token purchase) challenge_id 1000000

abbrev request : ProvisioningRequest
request = record {
  request_id = text "request-a";
  token_id = text "token-a";
  trusted_device_id = text "device-a";
  state = trusted_device_challenge;
  challenge = new_binding enrolment (text "challenge-b") 1000000;
}

-- An engine with an outstanding provisioning request on the device, too.
abbrev requested_engine : Engine
requested_engine = record authorized_engine {
  provisioning = (text "request-a", request) ∷ [];
  challenges =
      (text "challenge-b", new_record enrolment (text "challenge-b") 1000000)
      ∷ authorized_engine.challenges;
}

abbrev revoked_engine : Engine
revoked_engine =
    (revoke_trusted_device example_platform (text "device-a") 1010000 (text "event-c")
      requested_engine).1

abbrev revoked_device : TrustedDevice
revoked_device = record device { status = DeviceStatus.revoked }

revokes_device :
    revoke_trusted_device example_platform
      (text "device-a")
      1010000
      (text "event-c")
      requested_engine
    ≡ (ok revoked_device, revoked_engine)
unfolding revoke_trusted_device remove_device invalidate_outstanding_challenges plan
    assert_cancellable invalidate_requests invalidate_transactions decline_request
    decline_transaction release_cap_reservation release_spend cancel transition_transaction
    transition_provisioning authorize admit reserve issue_challenge require_active_device create
    lookup insert erase text_eq ◌>>=◌
revokes_device = refl

-- What is called after the revocation.
abbrev calls : List Call
calls =
    clear (text "transaction-a") 1040000 (text "event-d")
    ∷ reverse (text "transaction-a") 1050000 (text "event-e")
    ∷ []

abbrev declined_purchase : TransactionRecord
declined_purchase = record pending_purchase {
  state = TransactionState.declined;
  cap_reservation = none;
}

abbrev declined_request : ProvisioningRequest
declined_request = record request { state = ProvisioningState.declined }

stays_declined :
    lookup (text "transaction-a") (run example_platform calls revoked_engine).transactions
    ≡ some declined_purchase
unfolding receive_clearing expire_and_reverse revoke_trusted_device remove_device
    invalidate_outstanding_challenges plan assert_cancellable invalidate_requests
    invalidate_transactions decline_request decline_transaction release_cap_reservation
    release_spend cancel transition_transaction transition_provisioning authorize admit reserve
    issue_challenge require_active_device create lookup insert erase text_eq ◌>>=◌
stays_declined = refl

request_declined :
    lookup (text "request-a") (run example_platform calls revoked_engine).provisioning
    ≡ some declined_request
unfolding receive_clearing expire_and_reverse revoke_trusted_device remove_device
    invalidate_outstanding_challenges plan assert_cancellable invalidate_requests
    invalidate_transactions decline_request decline_transaction release_cap_reservation
    release_spend cancel transition_transaction transition_provisioning authorize admit reserve
    issue_challenge require_active_device create lookup insert erase text_eq ◌>>=◌
request_declined = refl

revoked_never_approves_example :
    approve_provisioning example_platform
      (text "request-a")
      approval
      1060000
      Activation.capped
      (text "event-f")
      (run example_platform calls revoked_engine)
    ≡ (err Error.device_revoked, run example_platform calls revoked_engine)
revoked_never_approves_example =
    revoked_never_approves example_platform (text "device-a") revoked_device 1010000
      (text "event-c") requested_engine revoked_engine calls (text "request-a") approval 1060000
      Activation.capped (text "event-f") declined_request revokes_device request_declined refl

revoked_never_confirms_example :
    confirm_transaction_with example_platform
      (text "transaction-a")
      approval
      1060000
      (text "event-f")
      (run example_platform calls revoked_engine)
    ≡ (err Error.device_revoked, run example_platform calls revoked_engine)
revoked_never_confirms_example =
    revoked_never_confirms example_platform (text "device-a") revoked_device 1010000
      (text "event-c") requested_engine revoked_engine calls (text "transaction-a") approval 1060000
      (text "event-f") declined_purchase purchase_binding revokes_device stays_declined refl refl

-- The approval of the provisioning challenge, given for the transaction.
abbrev other_approval : SignedApproval
other_approval = record approval { binding = new_binding enrolment (text "challenge-b") 1000000 }

abbrev other_record : ChallengeRecord
other_record = record {
  binding = new_binding enrolment (text "challenge-b") 1000000;
  status = confirmed;
  consumed_at = some 1005000;
}

consumes_other :
    consume example_crypto other_approval pem 1005000 approval_algorithm requested_engine.challenges
    ≡ (ok other_record, insert (text "challenge-b") other_record requested_engine.challenges)
unfolding consume canonicalize_binding validate_binding common_tests ordered_fields collect
    field_value Fields-discrete verify_approval authorize admit reserve issue_challenge
    require_active_device create transition_transaction lookup insert text_eq ◌>>=◌ ℕ_discrete
consumes_other = refl

stored_purchase :
    lookup (text "transaction-a") requested_engine.transactions ≡ some pending_purchase
unfolding authorize admit reserve issue_challenge require_active_device create
    transition_transaction lookup insert text_eq ◌>>=◌
stored_purchase = refl

stored_device : lookup (text "device-a") requested_engine.devices ≡ some device
unfolding authorize admit reserve issue_challenge require_active_device create
    transition_transaction lookup insert text_eq ◌>>=◌
stored_device = refl

confirm_with_any_challenge_example :
    (confirm_transaction_with example_platform
      (text "transaction-a")
      other_approval
      1005000
      (text "event-d")
      requested_engine).0
    ≡ ok (record pending_purchase { state = TransactionState.confirmed })
confirm_with_any_challenge_example =
    confirm_with_any_challenge example_platform (text "transaction-a") 1005000 (text "event-d")
      other_approval pending_purchase purchase_binding other_record device
      (insert (text "challenge-b") other_record requested_engine.challenges) requested_engine
      stored_purchase refl refl stored_device refl refl consumes_other

receive_clearing_lem_example :
    ((receive_clearing example_platform
        (text "transaction-a")
        1005000
        (text "event-d")
        requested_engine).0
      ≡ err (invalid_transaction_transition confirmation_pending clearing_received))
    × (lookup
          (text "transaction-a")
          (receive_clearing example_platform
            (text "transaction-a")
            1005000
            (text "event-d")
            requested_engine).1.transactions
        ≡ some pending_purchase)
receive_clearing_lem_example =
    receive_clearing_lem example_platform (text "transaction-a") 1005000 (text "event-d")
      pending_purchase requested_engine stored_purchase
