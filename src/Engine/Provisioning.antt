-- ===== src/Engine/Provisioning.antt =====
-- apps/issuer-simulator/airlockEngine.ts: requestProvisioning and approveProvisioning.
use contactless_airlock_lab.Prelude.{
  ℕ, ◌*◌, ◌/◌, not, ◌&&◌, none, some, Text, ltb, leb, ◌==◌, text_Eq, has, ◌>>=◌, ◌>>◌, pure, lift,
  gets, modify, guard,
}
use contactless_airlock_lab.Protocol.{
  SignedApproval, ChallengeBinding, ProvisioningState, requested, risk_scored,
  trusted_device_challenge, approved, token_active_capped, token_active_full,
  provision_payment_token, token_id_exists, invalid_cap, unknown_request, key_id_mismatch,
  unknown_token,
}
use contactless_airlock_lab.Protocol.Canonical.{max_safe_integer}
use contactless_airlock_lab.Transitions.{transition_provisioning}
use contactless_airlock_lab.Challenges.{CreateChallengeInput, create, consume}
use contactless_airlock_lab.Engine.{
  Op, Platform, PaymentToken, ProvisioningRequest, TokenState, pending, active_capped, active_full,
  Activation, capped, full, provisioning_challenge_created, provisioning_approved,
  challenge_created, provisioned, must, put_token, put_request, on_challenges, log_event,
  require_active_device,
}

pub record ProvisioningInput : Type 0 where
  pub subject_id : Text
  pub account_id : Text
  pub token_id : Text
  pub trusted_device_id : Text
  pub cap_minor : ℕ

-- The random ids of a call: of the request, of the challenge and of the audit event.
pub record RandomIds : Type 0 where
  pub request_id : Text
  pub challenge_id : Text
  pub event_id : Text

abbrev pub new_token : ProvisioningInput → PaymentToken
new_token input = record {
  token_id = input.token_id;
  subject_id = input.subject_id;
  account_id = input.account_id;
  state = pending;
  per_transaction_cap_minor = some input.cap_minor;
  daily_cap_minor = some (input.cap_minor * 2);
}

abbrev pub provisioning_challenge : ProvisioningInput → Text → CreateChallengeInput
provisioning_challenge input device_id = record {
  purpose = provision_payment_token;
  subject_id = input.subject_id;
  account_id = input.account_id;
  payment_token_id = input.token_id;
  trusted_device_id = device_id;
  transaction_id = none;
  merchant_id = none;
  amount_minor = none;
  currency = none;
  ttl_ms = 120000;
}

abbrev pub new_request :
    ProvisioningInput → Text → Text → ProvisioningState → ChallengeBinding → ProvisioningRequest
new_request input request_id device_id state challenge = record {
  request_id = request_id;
  token_id = input.token_id;
  trusted_device_id = device_id;
  state = state;
  challenge = challenge;
}

-- The token state and the last provisioning state of an activation.
abbrev pub active_state : Activation → TokenState
active_state capped = active_capped
active_state full = active_full

abbrev pub final_state : Activation → ProvisioningState
final_state capped = token_active_capped
final_state full = token_active_full

abbrev pub activated : Activation → PaymentToken → PaymentToken
activated capped token = record token { state = active_capped }
activated full token = record token {
  state = active_full;
  per_transaction_cap_minor = none;
  daily_cap_minor = none;
}

module _ (platform : Platform) where
  unfoldable pub request_provisioning : ProvisioningInput → ℕ → RandomIds → Op ProvisioningRequest
  request_provisioning input now ids = do
    known ← gets (λ s. has input.token_id s.tokens)
    guard (not known) token_id_exists
    guard (ltb 0 input.cap_minor && leb input.cap_minor (max_safe_integer / 2)) invalid_cap
    device ← require_active_device input.trusted_device_id (some input.subject_id)
    modify (put_token input.token_id (new_token input))
    scored ← lift (transition_provisioning requested risk_scored)
    state ← lift (transition_provisioning scored trusted_device_challenge)
    challenge ←
        on_challenges (create (provisioning_challenge input device.device_id) ids.challenge_id now)
    let request = new_request input ids.request_id device.device_id state challenge
    modify (put_request ids.request_id request)
    log_event platform provisioning_challenge_created request.request_id (challenge_created request)
        now ids.event_id
    pure request

  unfoldable pub approve_provisioning :
      Text → SignedApproval → ℕ → Activation → Text → Op ProvisioningRequest
  approve_provisioning request_id approval now activation event_id = do
    request ← must (λ s. s.provisioning) request_id unknown_request
    device ← require_active_device request.trusted_device_id none
    guard (approval.key_id == device.key_id) key_id_mismatch
    on_challenges (consume platform.crypto approval device.public_key_pem now device.algorithm)
    accepted ← lift (transition_provisioning request.state approved)
    modify (put_request request_id (record request { state = accepted }))
    state ← lift (transition_provisioning accepted (final_state activation))
    let done = record request { state = state }
    modify (put_request request_id done)
    token ← must (λ s. s.tokens) request.token_id unknown_token
    modify (put_token request.token_id (activated activation token))
    log_event platform provisioning_approved request_id
        (provisioned done approval.binding.challenge_id activation) now event_id
    pure done
