-- ===== src/Examples.antt =====
-- Concrete data: a device, its challenges and approvals, an engine with a capped token, and a
-- signature scheme in which the signature of a key is the key itself.
mod Store
mod Issuer
mod Desk
mod Login
mod Ledger
mod Vault
mod Hooks
use contactless_airlock_lab.Prelude.{
  ◌≡◌, ℕ, true, Text, text, text_eq, Option, none, some, List, [], ◌∷◌, Map,
}
use contactless_airlock_lab.Protocol.{
  ChallengeBinding, SignedApproval, provision_payment_token, confirm_transaction,
}
use contactless_airlock_lab.Crypto.{Crypto, approval_algorithm}
use contactless_airlock_lab.Challenges.{
  CreateChallengeInput, new_binding, ChallengeStore, new_record,
}
use contactless_airlock_lab.Engine.{
  Engine, Platform, TrustedDevice, DeviceStatus, PaymentToken, active_capped,
  pre_authorization_step_up,
}
use contactless_airlock_lab.Engine.Transactions.{AuthorizeInput}

abbrev pub example_crypto : Crypto
example_crypto = record {
  is_p256_public = λ key. true;
  digest = λ key. key;
  verify = λ algorithm payload key signature. text_eq key signature;
}

abbrev pub example_platform : Platform
example_platform = record { crypto = example_crypto; digest = λ body. body.event_id }

abbrev pub pem : Text
pem = text "pem-a"

abbrev pub device : TrustedDevice
device = record {
  device_id = text "device-a";
  subject_id = text "subject-a";
  key_id = text "key-a";
  algorithm = approval_algorithm;
  public_key_pem = pem;
  status = DeviceStatus.active;
}

abbrev pub token : PaymentToken
token = record {
  token_id = text "token-a";
  subject_id = text "subject-a";
  account_id = text "account-a";
  state = active_capped;
  per_transaction_cap_minor = some 5000;
  daily_cap_minor = some 10000;
}

abbrev pub engine : Engine
engine = record {
  audit = [];
  challenges = [];
  devices = (text "device-a", device) ∷ [];
  tokens = (text "token-a", token) ∷ [];
  provisioning = [];
  transactions = [];
  daily_spend = [];
}

abbrev pub purchase : AuthorizeInput
purchase = record {
  transaction_id = text "transaction-a";
  token_id = text "token-a";
  merchant_id = text "merchant-a";
  amount_minor = 1200;
  strategy = pre_authorization_step_up;
  trusted_device_id = text "device-a";
}

abbrev pub challenge_id : Text
challenge_id = text "challenge-a"

abbrev pub enrolment : CreateChallengeInput
enrolment = record {
  purpose = provision_payment_token;
  subject_id = text "subject-a";
  account_id = text "account-a";
  payment_token_id = text "token-a";
  trusted_device_id = text "device-a";
  transaction_id = none;
  merchant_id = none;
  amount_minor = none;
  currency = none;
  ttl_ms = 120000;
}

abbrev pub binding : ChallengeBinding
binding = new_binding enrolment challenge_id 1000000

abbrev pub approval : SignedApproval
approval = record {
  binding = binding;
  key_id = text "key-a";
  algorithm = approval_algorithm;
  signature = pem;
}

abbrev pub issued : ChallengeStore
issued = (challenge_id, new_record enrolment challenge_id 1000000) ∷ []
