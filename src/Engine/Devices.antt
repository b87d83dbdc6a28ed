-- ===== src/Engine/Devices.antt =====
-- apps/issuer-simulator/airlockEngine.ts: enrolment, revocation, compromise and key rotation of a
-- trusted device.
use contactless_airlock_lab.Prelude.{
  ℕ, not, Option, none, some, Text, ◌==◌, text_Eq, has, ◌>>=◌, ◌>>◌, pure, lift, gets, raise,
  modify, guard,
}
use contactless_airlock_lab.Protocol.{
  Error, device_id_exists, unknown_device, device_already_revoked, compromised_not_active,
  only_active_rotates, same_key_id, same_public_key,
}
use contactless_airlock_lab.Crypto.{validate_public_key_profile, public_key_fingerprint}
use contactless_airlock_lab.Engine.{
  Op, Platform, TrustedDevice, DeviceStatus, active, EventType, device_enrolled, device_revoked,
  device_compromised, device_key_rotated, enrolled, removed, rotated, is_active, must, put_device,
  log_event, assert_key_id_available, assert_public_key_available,
}
use contactless_airlock_lab.Engine.Invalidation.{invalidate_outstanding_challenges}

-- The public half of a device key pair.
pub record DeviceKeys : Type 0 where
  pub key_id : Text
  pub algorithm : Text
  pub public_key_pem : Text

-- A function that throws or returns nothing of use.
abbrev pub passes : Option Error → Op (Unit {0})
passes none = pure tt
passes (some e) = raise e

abbrev pub new_device : Text → DeviceKeys → Text → TrustedDevice
new_device subject_id keys device_id = record {
  device_id = device_id;
  subject_id = subject_id;
  key_id = keys.key_id;
  algorithm = keys.algorithm;
  public_key_pem = keys.public_key_pem;
  status = active;
}

abbrev pub with_keys : TrustedDevice → DeviceKeys → TrustedDevice
with_keys device keys = record device {
  key_id = keys.key_id;
  algorithm = keys.algorithm;
  public_key_pem = keys.public_key_pem;
}

module _ (platform : Platform) where
  unfoldable pub enroll_trusted_device : Text → DeviceKeys → Text → ℕ → Text → Op TrustedDevice
  enroll_trusted_device subject_id keys device_id now event_id = do
    known ← gets (λ s. has device_id s.devices)
    guard (not known) device_id_exists
    assert_key_id_available keys.key_id none
    passes (validate_public_key_profile platform.crypto keys.public_key_pem keys.algorithm)
    assert_public_key_available platform keys.public_key_pem keys.algorithm none
    let device = new_device subject_id keys device_id
    modify (put_device device_id device)
    log_event platform device_enrolled device_id (enrolled device) now event_id
    pure device

  -- The end of a revocation.
  unfoldable pub remove_device : EventType → Text → TrustedDevice → ℕ → Text → Op TrustedDevice
  remove_device type device_id device now event_id = do
    ids ← invalidate_outstanding_challenges device_id now
    let gone = record device { status = DeviceStatus.revoked }
    modify (put_device device_id gone)
    log_event platform type device_id (removed gone ids) now event_id
    pure gone

  unfoldable pub revoke_trusted_device : Text → ℕ → Text → Op TrustedDevice
  revoke_trusted_device device_id now event_id = do
    device ← must (λ s. s.devices) device_id unknown_device
    guard (is_active device.status) device_already_revoked
    remove_device device_revoked device_id device now event_id

  unfoldable pub mark_trusted_device_compromised : Text → ℕ → Text → Op TrustedDevice
  mark_trusted_device_compromised device_id now event_id = do
    device ← must (λ s. s.devices) device_id unknown_device
    guard (is_active device.status) compromised_not_active
    remove_device device_compromised device_id device now event_id

  unfoldable pub rotate_trusted_device_key : Text → DeviceKeys → ℕ → Text → Op TrustedDevice
  rotate_trusted_device_key device_id keys now event_id = do
    device ← must (λ s. s.devices) device_id unknown_device
    guard (is_active device.status) only_active_rotates
    guard (not (keys.key_id == device.key_id)) same_key_id
    assert_key_id_available keys.key_id (some device_id)
    passes (validate_public_key_profile platform.crypto keys.public_key_pem keys.algorithm)
    new ← lift (public_key_fingerprint platform.crypto keys.public_key_pem keys.algorithm)
    old ← lift (public_key_fingerprint platform.crypto device.public_key_pem device.algorithm)
    guard (not (new == old)) same_public_key
    assert_public_key_available platform keys.public_key_pem keys.algorithm (some device_id)
    ids ← invalidate_outstanding_challenges device_id now
    let changed = with_keys device keys
    modify (put_device device_id changed)
    log_event platform device_key_rotated device_id (rotated device.key_id changed ids) now event_id
    pure changed
