-- ===== src/Engine/Revocation.antt =====
-- apps/issuer-simulator/airlockEngine.ts: the status of a revoked device under further calls.
use contactless_airlock_lab.Prelude.{
  ◌≡◌, ◌≢◌, refl, ℕ, Text, Option, none, some, List, [], ◌∷◌, Map, err, arith, text_Eq, lookup,
  lookup-insert, Keeps, keeps_rules, Keeps-modify, Keeps-bind, Keeps-pure, Keeps-lift, Keeps-guard,
  Keeps-if, Keeps-raise, Bool-cases, ◌==◌, modify, lookup-insert_ne, ◌∙◌, text_eq_iff, ◌>>=◌, ◌⊎◌,
  inl, inr,
}
use contactless_airlock_lab.Protocol.{Error, device_id_exists, only_active_rotates}
use contactless_airlock_lab.Engine.{
  Engine, Platform, TrustedDevice, DeviceStatus, EventType, put_device, assert_key_id_available,
  fingerprint_taken, assert_public_key_available,
}
use contactless_airlock_lab.Engine.Devices.{
  DeviceKeys, passes, enroll_trusted_device, remove_device, revoke_trusted_device,
  mark_trusted_device_compromised, rotate_trusted_device_key,
}
use contactless_airlock_lab.Engine.Frames.{
  OfDevices, invalidate-Keeps, log-Keeps, request-provisioning-Keeps, approve-Keeps,
  authorize-Keeps, confirm-Keeps, reverse-Keeps, clearing-Keeps,
}
use contactless_airlock_lab.Engine.Calls.{
  Call, enroll, revoke, compromise, rotate, provision, approve, authorizes, confirm, reverse, clear,
  after, run,
}

-- The device is enrolled and revoked.
pub record RevokedIn (id : Text) (devices : Map Text TrustedDevice) : Type 0 where
  pub device : TrustedDevice
  pub stored : lookup id devices ≡ some device
  pub status : device.status ≡ DeviceStatus.revoked

module _ (platform : Platform) (id : Text) where
  abbrev pub IsRevoked : Engine → Type 0
  IsRevoked = OfDevices (RevokedIn id)

  put_revoked :
      (key : Text) (d : TrustedDevice) (s : Engine)
      → d.status ≡ DeviceStatus.revoked
      → IsRevoked s
      → IsRevoked (put_device key d s)
  put_revoked key d s gone r = elim (Bool-cases (key == id)) [
    | inl same ↦ record {
      device = d;
      stored = ground (arith, lookup-insert key id d s.devices);
      status = gone;
    }
    | inr other ↦ record {
      device = r.device;
      stored = ground (arith, lookup-insert key id d s.devices, r.stored);
      status = r.status;
    }
  ]

  put_other :
      (key : Text) (d : TrustedDevice)
      → key ≢ id
      → Keeps {E = Error} IsRevoked (modify (put_device key d))
  put_other key d ne = Keeps-modify (put_device key d) λ s r. record {
    device = r.device;
    stored = lookup-insert_ne key id d s.devices ne ∙ r.stored;
    status = r.status;
  }

  remove-IsRevoked :
      (type : EventType) (key : Text) (device : TrustedDevice) (now : ℕ) (event : Text)
      → Keeps IsRevoked (remove_device platform type key device now event)
  unfolding remove_device
  remove-IsRevoked type key device now event =
      Keeps-bind _ _ (invalidate-Keeps (RevokedIn id) key now) λ ids.
        Keeps-bind _ _ (Keeps-modify _ (λ s r. put_revoked key _ s refl r)) λ _.
          Keeps-bind _ _ (log-Keeps (RevokedIn id) platform type key _ now event) λ _. Keeps-pure _

  revoke-IsRevoked :
      (key : Text) (now : ℕ) (event : Text)
      → Keeps IsRevoked (revoke_trusted_device platform key now event)
  unfolding revoke_trusted_device
  revoke-IsRevoked key now event = search (keeps_rules, remove-IsRevoked)

  compromise-IsRevoked :
      (key : Text) (now : ℕ) (event : Text)
      → Keeps IsRevoked (mark_trusted_device_compromised platform key now event)
  unfolding mark_trusted_device_compromised
  compromise-IsRevoked key now event = search (keeps_rules, remove-IsRevoked)

  key_id-IsRevoked :
      (key_id : Text) (except : Option Text)
      → Keeps IsRevoked (assert_key_id_available key_id except)
  unfolding assert_key_id_available
  key_id-IsRevoked key_id except = search keeps_rules

  fingerprint-IsRevoked :
      (fingerprint : Text) (except : Option Text) (devices : List TrustedDevice)
      → Keeps IsRevoked (fingerprint_taken platform fingerprint except devices)
  unfolding fingerprint_taken
  fingerprint-IsRevoked fingerprint except [] = Keeps-pure tt
  fingerprint-IsRevoked fingerprint except (d ∷ ds) =
      Keeps-if _ _ _ (fingerprint-IsRevoked fingerprint except ds) (
        Keeps-bind _ _ (Keeps-lift _) (λ other.
          Keeps-bind _ _ (Keeps-guard _ _) (λ _. fingerprint-IsRevoked fingerprint except ds)))

  public_key-IsRevoked :
      (key algorithm : Text) (except : Option Text)
      → Keeps IsRevoked (assert_public_key_available platform key algorithm except)
  unfolding assert_public_key_available
  public_key-IsRevoked key algorithm except = search (keeps_rules, fingerprint-IsRevoked)

  passes-IsRevoked : (o : Option Error) → Keeps IsRevoked (passes o)
  passes-IsRevoked none = Keeps-pure tt
  passes-IsRevoked (some e) = Keeps-raise e

  ruleset device_rules = (
    keeps_rules, key_id-IsRevoked, public_key-IsRevoked, passes-IsRevoked, put_other,
    invalidate-Keeps, log-Keeps,
  )

  enroll_other :
      (subject : Text) (keys : DeviceKeys) (key : Text) (now : ℕ) (event : Text)
      → key ≢ id
      → Keeps IsRevoked (enroll_trusted_device platform subject keys key now event)
  unfolding enroll_trusted_device
  enroll_other subject keys key now event ne = search device_rules depth 20

  rotate_other :
      (key : Text) (keys : DeviceKeys) (now : ℕ) (event : Text)
      → key ≢ id
      → Keeps IsRevoked (rotate_trusted_device_key platform key keys now event)
  unfolding rotate_trusted_device_key
  rotate_other key keys now event ne = search device_rules depth 20

  enroll_same :
      (subject : Text) (keys : DeviceKeys) (now : ℕ) (event : Text) (s : Engine)
      → IsRevoked s
      → enroll_trusted_device platform subject keys id now event s ≡ (err device_id_exists, s)
  unfolding enroll_trusted_device ◌>>=◌
  enroll_same subject keys now event s r = ground (arith, r.stored)

  rotate_same :
      (keys : DeviceKeys) (now : ℕ) (event : Text) (s : Engine)
      → IsRevoked s
      → rotate_trusted_device_key platform id keys now event s ≡ (err only_active_rotates, s)
  unfolding rotate_trusted_device_key ◌>>=◌
  rotate_same keys now event s r = ground (arith, r.stored, r.status)

  same_or_other : (key : Text) → (key ≡ id) ⊎ (key ≢ id)
  same_or_other key = elim (Bool-cases (key == id)) [
    | inl same ↦ inl ((text_eq_iff key id).0 same)
    | inr other ↦ inr (λ e. cc (other, (text_eq_iff key id).1 e))
  ]

  after-enroll :
      (subject : Text) (keys : DeviceKeys) (key : Text) (now : ℕ) (event : Text) (s : Engine)
      → IsRevoked s
      → IsRevoked (enroll_trusted_device platform subject keys key now event s).1
  after-enroll subject keys key now event s r = elim (same_or_other key) [
    | inl same ↦ rw (same, enroll_same subject keys now event s r) r
    | inr other ↦ (enroll_other subject keys key now event other).at s r
  ]

  after-rotate :
      (key : Text) (keys : DeviceKeys) (now : ℕ) (event : Text) (s : Engine)
      → IsRevoked s
      → IsRevoked (rotate_trusted_device_key platform key keys now event s).1
  after-rotate key keys now event s r = elim (same_or_other key) [
    | inl same ↦ rw (same, rotate_same keys now event s r) r
    | inr other ↦ (rotate_other key keys now event other).at s r
  ]

  after-IsRevoked : (c : Call) (s : Engine) → IsRevoked s → IsRevoked (after platform c s)
  after-IsRevoked (enroll subject keys key now event) s r =
      after-enroll subject keys key now event s r
  after-IsRevoked (revoke key now event) s r = (revoke-IsRevoked key now event).at s r
  after-IsRevoked (compromise key now event) s r = (compromise-IsRevoked key now event).at s r
  after-IsRevoked (rotate key keys now event) s r = after-rotate key keys now event s r
  after-IsRevoked (provision input now ids) s r =
      (request-provisioning-Keeps (RevokedIn id) platform input now ids).at s r
  after-IsRevoked (approve key approval now activation event) s r =
      (approve-Keeps (RevokedIn id) platform key approval now activation event).at s r
  after-IsRevoked (authorizes input now challenge event) s r =
      (authorize-Keeps (RevokedIn id) platform input now challenge event).at s r
  after-IsRevoked (confirm key approval now event) s r =
      (confirm-Keeps (RevokedIn id) platform key approval now event).at s r
  after-IsRevoked (reverse key now event) s r =
      (reverse-Keeps (RevokedIn id) platform key now event).at s r
  after-IsRevoked (clear key now event) s r =
      (clearing-Keeps (RevokedIn id) platform key now event).at s r

  -- A revoked device stays revoked, whatever methods are called.
  pub run-IsRevoked : (cs : List Call) (s : Engine) → IsRevoked s → IsRevoked (run platform cs s)
  run-IsRevoked [] s r = r
  run-IsRevoked (c ∷ cs) s r = run-IsRevoked cs (after platform c s) (after-IsRevoked c s r)
