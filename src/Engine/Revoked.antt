-- ===== src/Engine/Revoked.antt =====
-- apps/issuer-simulator/airlockEngine.ts: approvals after the revocation of a device.
use contactless_airlock_lab.Prelude.{
  ◌≡◌, refl, ℕ, Text, some, List, ok, err, arith, text_Eq, lookup, lookup-insert_self, Option-cases,
  ◌>>=◌, inl, inr,
}
use contactless_airlock_lab.Protocol.{SignedApproval, ChallengeBinding, Error}
use contactless_airlock_lab.Engine.{
  Engine, Platform, TrustedDevice, DeviceStatus, EventType, device_revoked, Activation,
  ProvisioningRequest, TransactionRecord, require_active_device,
}
use contactless_airlock_lab.Engine.Invalidation.{invalidate_outstanding_challenges}
use contactless_airlock_lab.Engine.Devices.{remove_device, revoke_trusted_device}
use contactless_airlock_lab.Engine.Provisioning.{approve_provisioning}
use contactless_airlock_lab.Engine.Transactions.{confirm_transaction_with}
use contactless_airlock_lab.Engine.Calls.{Call, run}
use contactless_airlock_lab.Engine.Revocation.{IsRevoked, run-IsRevoked}

module _ (platform : Platform) (id : Text) where
  removed-IsRevoked :
      (type : EventType) (device d : TrustedDevice) (now : ℕ) (event : Text) (s s' : Engine)
      → remove_device platform type id device now event s ≡ (ok d, s')
      → IsRevoked platform id s'
  unfolding remove_device ◌>>=◌
  removed-IsRevoked type device d now event s s' h =
      let gone : TrustedDevice = record device { status = DeviceStatus.revoked } in
      record {
        device = gone;
        stored = ground (
          arith,
          lookup-insert_self id gone (invalidate_outstanding_challenges id now s).1.devices,
        );
        status = refl;
      }

  revoke_ok-IsRevoked :
      (d : TrustedDevice) (now : ℕ) (event : Text) (s s' : Engine)
      → revoke_trusted_device platform id now event s ≡ (ok d, s')
      → IsRevoked platform id s'
  unfolding revoke_trusted_device ◌>>=◌
  revoke_ok-IsRevoked d now event s s' h = elim (Option-cases (lookup id s.devices)) [
    | inl missing ↦ absurd (ground arith)
    | inr (device, stored) ↦ removed-IsRevoked device_revoked device d now event s s' (ground arith)
  ]

  approve_blocked :
      (request_id : Text) (approval : SignedApproval) (now : ℕ) (activation : Activation)
      (event : Text) (r : ProvisioningRequest) (s : Engine)
      → IsRevoked platform id s
      → lookup request_id s.provisioning ≡ some r
      → r.trusted_device_id ≡ id
      → approve_provisioning platform request_id approval now activation event s
        ≡ (err Error.device_revoked, s)
  unfolding approve_provisioning require_active_device ◌>>=◌
  approve_blocked request_id approval now activation event r s gone found on =
      ground (arith, gone.stored, gone.status)

  confirm_blocked :
      (transaction_id : Text) (approval : SignedApproval) (now : ℕ) (event : Text)
      (t : TransactionRecord) (b : ChallengeBinding) (s : Engine)
      → IsRevoked platform id s
      → lookup transaction_id s.transactions ≡ some t
      → t.challenge ≡ some b
      → b.trusted_device_id ≡ id
      → confirm_transaction_with platform transaction_id approval now event s
        ≡ (err Error.device_revoked, s)
  unfolding confirm_transaction_with require_active_device ◌>>=◌
  confirm_blocked transaction_id approval now event t b s gone found has on =
      ground (arith, gone.stored, gone.status)

  -- After a revocation that returned, whatever methods are called, an approval of a stored
  -- provisioning request on that device throws that the device is revoked, and changes nothing.
  pub revoked_never_approves :
      (d : TrustedDevice) (t : ℕ) (e : Text) (s s' : Engine) (cs : List Call) (request_id : Text)
      (approval : SignedApproval) (now : ℕ) (activation : Activation) (event : Text)
      (r : ProvisioningRequest)
      → revoke_trusted_device platform id t e s ≡ (ok d, s')
      → lookup request_id (run platform cs s').provisioning ≡ some r
      → r.trusted_device_id ≡ id
      → approve_provisioning platform request_id approval now activation event (run platform cs s')
        ≡ (err Error.device_revoked, run platform cs s')
  revoked_never_approves d t e s s' cs request_id approval now activation event r h found on =
      approve_blocked request_id approval now activation event r (run platform cs s')
        (run-IsRevoked platform id cs s' (revoke_ok-IsRevoked d t e s s' h)) found on

  -- After a revocation that returned, whatever methods are called, a confirmation of a stored
  -- transaction whose challenge names that device throws that the device is revoked, and changes
  -- nothing.
  pub revoked_never_confirms :
      (d : TrustedDevice) (t : ℕ) (e : Text) (s s' : Engine) (cs : List Call)
      (transaction_id : Text) (approval : SignedApproval) (now : ℕ) (event : Text)
      (x : TransactionRecord) (b : ChallengeBinding)
      → revoke_trusted_device platform id t e s ≡ (ok d, s')
      → lookup transaction_id (run platform cs s').transactions ≡ some x
      → x.challenge ≡ some b
      → b.trusted_device_id ≡ id
      → confirm_transaction_with platform transaction_id approval now event (run platform cs s')
        ≡ (err Error.device_revoked, run platform cs s')
  revoked_never_confirms d t e s s' cs transaction_id approval now event x b h found has on =
      confirm_blocked transaction_id approval now event x b (run platform cs s')
        (run-IsRevoked platform id cs s' (revoke_ok-IsRevoked d t e s s' h)) found has on
