-- ===== src/Protocol.antt =====
-- packages/protocol/types.ts: the data of the challenge protocol, and the errors that the protocol,
-- the challenge store and the issuer engine throw. An instant is its number of milliseconds since
-- the epoch, the value of the ISO text that the program stores for it.
pub mod Canonical
pub mod Binding
use contactless_airlock_lab.Prelude.{ℕ, Text, Option}

pub data Purpose : Type 0 where
  provision_payment_token confirm_transaction : Purpose
  unsupported : Text → Purpose

pub record ChallengeBinding : Type 0 where
  pub protocol_version : Text
  pub purpose : Purpose
  pub challenge_id : Text
  pub subject_id : Text
  pub account_id : Text
  pub payment_token_id : Text
  pub trusted_device_id : Text
  pub transaction_id : Option Text
  pub merchant_id : Option Text
  pub amount_minor : Option ℕ
  pub currency : Option Text
  pub issued_at : ℕ
  pub expires_at : ℕ
  pub audience : Text

pub record SignedApproval : Type 0 where
  pub binding : ChallengeBinding
  pub key_id : Text
  pub algorithm : Text
  pub signature : Text

pub data ChallengeStatus : Type 0 where
  created confirmed expired cancelled : ChallengeStatus

pub record ChallengeRecord : Type 0 where
  pub binding : ChallengeBinding
  pub status : ChallengeStatus
  pub consumed_at : Option ℕ

pub data TransactionState : Type 0 where
  received confirmation_pending confirmed declined expired reversal_requested reversed :
      TransactionState
  clearing_received settled exception : TransactionState

pub data ProvisioningState : Type 0 where
  requested risk_scored trusted_device_challenge approved token_active_capped : ProvisioningState
  token_active_full declined expired : ProvisioningState

-- The fields of a binding.
pub data Field : Type 0 where
  protocol_version purpose challenge_id subject_id account_id payment_token_id : Field
  trusted_device_id transaction_id merchant_id amount_minor currency issued_at expires_at : Field
  audience : Field

-- A constructor for each message.
pub data Error : Type 0 where
  invalid_challenge_field : Field → Error
  unsupported_protocol_version invalid_challenge_audience invalid_issued_at invalid_expires_at :
      Error
  expiry_must_follow_issuance : Error
  transaction_challenge_requires : Field → Error
  requires_positive_amount unsupported_currency transaction_only_fields unsupported_purpose : Error
  unsupported_algorithm key_does_not_match_profile algorithm_mismatch : Error
  invalid_transaction_transition : TransactionState → TransactionState → Error
  invalid_provisioning_transition : ProvisioningState → ProvisioningState → Error
  invalid_ttl unknown_challenge challenge_already_terminal binding_mismatch challenge_expired :
      Error
  invalid_device_signature cancelled_before_issuance : Error
  invalid_challenge_record duplicate_challenge missing_consumption_time : Error
  consumed_before_issuance created_with_consumption_time : Error
  device_id_exists invalid_key_id key_id_exists public_key_exists unknown_device : Error
  device_already_revoked compromised_not_active only_active_rotates same_key_id same_public_key :
      Error
  device_revoked subject_mismatch token_id_exists invalid_cap unknown_request key_id_mismatch :
      Error
  unknown_token transaction_id_exists invalid_amount token_not_spendable exceeds_cap : Error
  exceeds_daily_cap unknown_transaction transaction_has_no_challenge missing_challenge : Error
