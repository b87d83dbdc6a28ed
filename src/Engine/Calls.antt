-- ===== src/Engine/Calls.antt =====
-- apps/issuer-simulator/airlockEngine.ts: sequences of the engine's public methods.
use contactless_airlock_lab.Prelude.{ℕ, Text, List, [], ◌∷◌, text_Eq}
use contactless_airlock_lab.Protocol.{SignedApproval}
use contactless_airlock_lab.Engine.{Engine, Platform, Activation}
use contactless_airlock_lab.Engine.Devices.{
  DeviceKeys, enroll_trusted_device, revoke_trusted_device, mark_trusted_device_compromised,
  rotate_trusted_device_key,
}
use contactless_airlock_lab.Engine.Provisioning.{
  ProvisioningInput, RandomIds, request_provisioning, approve_provisioning,
}
use contactless_airlock_lab.Engine.Transactions.{
  AuthorizeInput, authorize, confirm_transaction_with, expire_and_reverse, receive_clearing,
}

-- The calls of the engine's public methods that change it.
pub data Call : Type 0 where
  enroll : Text → DeviceKeys → Text → ℕ → Text → Call
  revoke : Text → ℕ → Text → Call
  compromise : Text → ℕ → Text → Call
  rotate : Text → DeviceKeys → ℕ → Text → Call
  provision : ProvisioningInput → ℕ → RandomIds → Call
  approve : Text → SignedApproval → ℕ → Activation → Text → Call
  authorizes : AuthorizeInput → ℕ → Text → Text → Call
  confirm : Text → SignedApproval → ℕ → Text → Call
  reverse : Text → ℕ → Text → Call
  clear : Text → ℕ → Text → Call

-- The state that a call leaves; an error is caught by the caller.
abbrev pub after : Platform → Call → Engine → Engine
after p (enroll subject keys id now event) s =
    (enroll_trusted_device p subject keys id now event s).1
after p (revoke id now event) s = (revoke_trusted_device p id now event s).1
after p (compromise id now event) s = (mark_trusted_device_compromised p id now event s).1
after p (rotate id keys now event) s = (rotate_trusted_device_key p id keys now event s).1
after p (provision input now ids) s = (request_provisioning p input now ids s).1
after p (approve id approval now activation event) s =
    (approve_provisioning p id approval now activation event s).1
after p (authorizes input now challenge event) s = (authorize p input now challenge event s).1
after p (confirm id approval now event) s = (confirm_transaction_with p id approval now event s).1
after p (reverse id now event) s = (expire_and_reverse p id now event s).1
after p (clear id now event) s = (receive_clearing p id now event s).1

abbrev pub run : Platform → List Call → Engine → Engine
run p [] s = s
run p (c ∷ cs) s = run p cs (after p c s)
