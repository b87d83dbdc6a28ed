-- ===== src/Engine.antt =====
-- apps/issuer-simulator/airlockEngine.ts: the issuer engine's data, its state and the private
-- methods. Its public methods are in the modules below. A method that
-- mutates a value of a map writes it back at its key. A spend key is the pair
-- of the token id and the number of the UTC day, which the program joins to a text.
pub mod Invalidation
pub mod Devices
pub mod Provisioning
pub mod Transactions
pub mod Frames
pub mod Calls
pub mod Revocation
pub mod Revoked
pub mod Caps
pub mod Reversal
pub mod Confirmation
use contactless_airlock_lab.Prelude.{
  ℕ, ◌+◌, ◌-◌, ◌/◌, ◌≡◌, ◌↔◌, Bool, true, false, not, ◌&&◌, ◌||◌, Option, none, some, List, [], ◌∷◌,
  Text, is_empty, matches_id, nat_eq, nat_eq_iff, ltb, leb, Eq, ◌==◌, text_Eq, text_eq_iff,
  if◌then◌else◌, Map, lookup, insert, erase, values, get_or, Result, ok, err, Exec, ◌>>=◌, ◌>>◌,
  pure, raise, lift, gets, fetch, modify, guard, arith, keep,
}
use contactless_airlock_lab.Protocol.{
  ChallengeBinding, ChallengeStatus, ChallengeRecord, TransactionState, ProvisioningState, created,
  cancelled, confirmation_pending, trusted_device_challenge, Error, invalid_key_id, key_id_exists,
  public_key_exists, unknown_device, subject_mismatch, cancelled_before_issuance, missing_challenge,
}
use contactless_airlock_lab.Crypto.{Crypto, public_key_fingerprint}
use contactless_airlock_lab.Challenges.{ChallengeStore, Store, cancel, is_created}
use contactless_airlock_lab.Audit.{AuditBody, AuditLog, append}
use contactless_airlock_lab.Transitions.{
  transition_transaction, transition_provisioning, transaction_state_Eq, provisioning_state_Eq,
}

pub data DeviceStatus : Type 0 where
  active revoked : DeviceStatus

pub record TrustedDevice : Type 0 where
  pub device_id : Text
  pub subject_id : Text
  pub key_id : Text
  pub algorithm : Text
  pub public_key_pem : Text
  pub status : DeviceStatus

pub data TokenState : Type 0 where
  pending active_capped active_full declined : TokenState

pub record PaymentToken : Type 0 where
  pub token_id : Text
  pub subject_id : Text
  pub account_id : Text
  pub state : TokenState
  pub per_transaction_cap_minor : Option ℕ
  pub daily_cap_minor : Option ℕ

pub record ProvisioningRequest : Type 0 where
  pub request_id : Text
  pub token_id : Text
  pub trusted_device_id : Text
  pub state : ProvisioningState
  pub challenge : ChallengeBinding

pub data Strategy : Type 0 where
  pre_authorization_step_up provisional_monitoring : Strategy

abbrev pub SpendKey : Type 0
SpendKey = Text × ℕ

abbrev pub spend_key_eq : SpendKey → SpendKey → Bool
spend_key_eq (s, d) (t, e) = (s == t) && nat_eq d e

pub spend_key_eq_iff : (k j : SpendKey) → (spend_key_eq k j ≡ true) ↔ (k ≡ j)
spend_key_eq_iff (s, d) (t, e) = ground (arith, text_eq_iff s t)

instance abbrev pub spend_key_Eq : Eq SpendKey
spend_key_Eq = record { beq = spend_key_eq; beq_iff = spend_key_eq_iff }

pub record CapReservation : Type 0 where
  pub spend_key : SpendKey
  pub amount_minor : ℕ

pub record TransactionRecord : Type 0 where
  pub transaction_id : Text
  pub token_id : Text
  pub merchant_id : Text
  pub amount_minor : ℕ
  pub currency : Text
  pub state : TransactionState
  pub strategy : Strategy
  pub challenge : Option ChallengeBinding
  pub cap_reservation : Option CapReservation

-- The event types of the engine, each with its payload.
pub data Activation : Type 0 where
  capped full : Activation

pub data EventType : Type 0 where
  device_enrolled device_revoked device_compromised device_key_rotated : EventType
  provisioning_challenge_created provisioning_approved transaction_confirmation_pending : EventType
  transaction_confirmed transaction_reversed_after_timeout transaction_clearing_received : EventType

pub data Payload : Type 0 where
  enrolled : TrustedDevice → Payload
  removed : TrustedDevice → List Text → Payload
  rotated : Text → TrustedDevice → List Text → Payload
  challenge_created : ProvisioningRequest → Payload
  provisioned : ProvisioningRequest → Text → Activation → Payload
  transaction : TransactionRecord → Text → Payload

pub record Engine : Type 0 where
  pub audit : AuditLog EventType Payload
  pub challenges : ChallengeStore
  pub devices : Map Text TrustedDevice
  pub tokens : Map Text PaymentToken
  pub provisioning : Map Text ProvisioningRequest
  pub transactions : Map Text TransactionRecord
  pub daily_spend : Map SpendKey ℕ

-- node:crypto, and the digest of an audit event's JSON.
pub record Platform : Type 0 where
  pub crypto : Crypto
  pub digest : AuditBody EventType Payload → Text

abbrev pub Op : Type 0 → Type 0
Op A = Exec Error Engine A

abbrev pub is_active : DeviceStatus → Bool
is_active active = true
is_active revoked = false

abbrev pub is_pending : TokenState → Bool
is_pending pending = true
is_pending _ = false

-- #must
abbrev pub must : {V : Type 0} → (Engine → Map Text V) → Text → Error → Op V
must field key unknown = fetch (λ s. lookup key (field s)) unknown

abbrev pub put_device : Text → TrustedDevice → Engine → Engine
put_device id d s = record s { devices = insert id d s.devices }

abbrev pub put_token : Text → PaymentToken → Engine → Engine
put_token id t s = record s { tokens = insert id t s.tokens }

abbrev pub put_request : Text → ProvisioningRequest → Engine → Engine
put_request id r s = record s { provisioning = insert id r s.provisioning }

abbrev pub put_transaction : Text → TransactionRecord → Engine → Engine
put_transaction id t s = record s { transactions = insert id t s.transactions }

-- A call of a method of `this.challenges`.
abbrev with_challenges :
    {A : Type 0} → Engine → Result Error A × ChallengeStore → Result Error A × Engine
with_challenges s (r, c) = (r, record s { challenges = c })

abbrev pub on_challenges : {A : Type 0} → Store A → Op A
on_challenges m s = with_challenges s (m s.challenges)

-- `this.audit.append`
abbrev pub log_event : Platform → EventType → Text → Payload → ℕ → Text → Op (Unit {0})
log_event platform type correlation_id payload now event_id = modify λ s. record s {
  audit = append platform.digest type correlation_id payload now event_id s.audit;
}

-- `subjectId && device.subjectId !== subjectId`: an empty subject is not compared.
abbrev subject_differs : Option Text → TrustedDevice → Bool
subject_differs none device = false
subject_differs (some subject) device = not (is_empty subject) && not (device.subject_id == subject)

unfoldable pub require_active_device : Text → Option Text → Op TrustedDevice
require_active_device device_id subject = do
  device ← must (λ s. s.devices) device_id unknown_device
  guard (is_active device.status) Error.device_revoked
  guard (not (subject_differs subject device)) subject_mismatch
  pure device

-- `exceptDeviceId`, absent or present.
abbrev is_except : Option Text → TrustedDevice → Bool
is_except none device = false
is_except (some id) device = device.device_id == id

key_id_taken : Text → Option Text → List TrustedDevice → Bool
key_id_taken key_id except [] = false
key_id_taken key_id except (device ∷ rest) =
    (not (is_except except device) && device.key_id == key_id) || key_id_taken key_id except rest

unfoldable pub assert_key_id_available : Text → Option Text → Op (Unit {0})
unfolding key_id_taken
assert_key_id_available key_id except = do
  guard (matches_id key_id) invalid_key_id
  devices ← gets (λ s. values s.devices)
  guard (not (key_id_taken key_id except devices)) key_id_exists

module _ (platform : Platform) where
  -- The loop of `#assertPublicKeyAvailable`.
  unfoldable pub fingerprint_taken : Text → Option Text → List TrustedDevice → Op (Unit {0})
  fingerprint_taken fingerprint except [] = pure tt
  fingerprint_taken fingerprint except (device ∷ rest) =
      let others = fingerprint_taken fingerprint except rest in
      if is_except except device then others else (do
        other ← lift (public_key_fingerprint platform.crypto device.public_key_pem device.algorithm)
        guard (not (other == fingerprint)) public_key_exists
        others)

  unfoldable pub assert_public_key_available : Text → Text → Option Text → Op (Unit {0})
  assert_public_key_available key algorithm except = do
    fingerprint ← lift (public_key_fingerprint platform.crypto key algorithm)
    devices ← gets (λ s. values s.devices)
    fingerprint_taken fingerprint except devices
