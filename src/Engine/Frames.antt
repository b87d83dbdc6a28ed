-- ===== src/Engine/Frames.antt =====
-- apps/issuer-simulator/airlockEngine.ts: the methods that write no trusted device.
use contactless_airlock_lab.Prelude.{
  ℕ, Text, Option, List, [], ◌∷◌, arith, text_Eq, modify, Keeps, keeps_rules, Keeps-modify,
  Keeps-bind, Keeps-pure, Keeps-fetch, Keeps-guard, ◌>>=◌,
}
use contactless_airlock_lab.Protocol.{SignedApproval, Error}
use contactless_airlock_lab.Challenges.{Store}
use contactless_airlock_lab.Engine.{
  Engine, Op, Platform, TrustedDevice, Activation, ProvisioningRequest, PaymentToken,
  TransactionRecord, CapReservation, EventType, Payload, on_challenges, put_token, put_request,
  put_transaction, require_active_device, log_event,
}
use contactless_airlock_lab.Engine.Invalidation.{
  Planned, plan, assert_cancellable, decline_request, decline_transaction, release_cap_reservation,
  Disposal, cancels, keeps, skips, dispose, disposal, invalidate_requests, invalidate_transactions,
  invalidate_outstanding_challenges,
}
use contactless_airlock_lab.Engine.Provisioning.{
  ProvisioningInput, RandomIds, request_provisioning, approve_provisioning,
}
use contactless_airlock_lab.Engine.Transactions.{
  AuthorizeInput, admit, reserve, issue_challenge, authorize, confirm_transaction_with,
  expire_and_reverse, receive_clearing,
}

-- A property of the devices alone.
module _ (Q : List (Text × TrustedDevice) → Type 0) where
  abbrev pub OfDevices : Engine → Type 0
  OfDevices s = Q s.devices

  on_challenges-Keeps : {A : Type 0} (m : Store A) → Keeps OfDevices (on_challenges m)
  on_challenges-Keeps m = record { at = λ s h. h }

  token-Keeps :
      (id : Text) (t : PaymentToken) → Keeps {E = Error} OfDevices (modify (put_token id t))
  token-Keeps id t = Keeps-modify (put_token id t) (λ s h. h)

  request-Keeps :
      (id : Text) (r : ProvisioningRequest)
      → Keeps {E = Error} OfDevices (modify (put_request id r))
  request-Keeps id r = Keeps-modify (put_request id r) (λ s h. h)

  transaction-Keeps :
      (id : Text) (t : TransactionRecord)
      → Keeps {E = Error} OfDevices (modify (put_transaction id t))
  transaction-Keeps id t = Keeps-modify (put_transaction id t) (λ s h. h)

  pub log-Keeps :
      (platform : Platform) (type : EventType) (id : Text) (payload : Payload) (now : ℕ)
      (event : Text)
      → Keeps OfDevices (log_event platform type id payload now event)
  log-Keeps platform type id payload now event = Keeps-modify _ (λ s h. h)

  require-Keeps :
      (id : Text) (subject : Option Text) → Keeps OfDevices (require_active_device id subject)
  unfolding require_active_device
  require-Keeps id subject = search keeps_rules

  ruleset frame = (
    keeps_rules, on_challenges-Keeps, token-Keeps, request-Keeps, transaction-Keeps, log-Keeps,
    require-Keeps,
  )

  decline_request-Keeps : (r : ProvisioningRequest) → Keeps OfDevices (decline_request r)
  unfolding decline_request
  decline_request-Keeps r = search frame

  release-Keeps : (t : TransactionRecord) → Keeps OfDevices (release_cap_reservation t)
  unfolding release_cap_reservation ◌>>=◌
  release-Keeps t = record { at = λ s h. ground arith }

  decline_transaction-Keeps : (t : TransactionRecord) → Keeps OfDevices (decline_transaction t)
  unfolding decline_transaction
  decline_transaction-Keeps t = search (frame, release-Keeps)

  plan-Keeps : {A : Type 0} (id : A → Text) (xs : List A) → Keeps OfDevices (plan id xs)
  unfolding plan
  plan-Keeps id [] = search frame
  plan-Keeps id (x ∷ xs) =
      Keeps-bind _ _ (Keeps-fetch _ _)
        (λ found. Keeps-bind _ _ (plan-Keeps id xs) (λ rest. Keeps-pure _))

  assert_cancellable-Keeps :
      {A : Type 0} (now : ℕ) (xs : List (Planned A)) → Keeps OfDevices (assert_cancellable now xs)
  unfolding assert_cancellable
  assert_cancellable-Keeps now [] = search frame
  assert_cancellable-Keeps now ((x, c) ∷ xs) =
      Keeps-bind _ _ (Keeps-guard _ _) (λ _. assert_cancellable-Keeps now xs)

  dispose-Keeps :
      {A : Type 0} (d : Disposal) (id : Text) (now : ℕ) (m n : Op A)
      → Keeps OfDevices m
      → Keeps OfDevices n
      → Keeps OfDevices (dispose d id now m n)
  dispose-Keeps cancels id now m n km kn = search frame
  dispose-Keeps keeps id now m n km kn = km
  dispose-Keeps skips id now m n km kn = kn

  invalidate_requests-Keeps :
      (now : ℕ) (xs : List (Planned ProvisioningRequest))
      → Keeps OfDevices (invalidate_requests now xs)
  unfolding invalidate_requests
  invalidate_requests-Keeps now [] = search frame
  invalidate_requests-Keeps now ((r, c) ∷ xs) =
      Keeps-bind _ _
        (dispose-Keeps (disposal c.status) _ now _ _ (decline_request-Keeps r) (Keeps-pure _))
        (λ ids. Keeps-bind _ _ (invalidate_requests-Keeps now xs) (λ more. Keeps-pure _))

  invalidate_transactions-Keeps :
      (now : ℕ) (xs : List (Planned TransactionRecord))
      → Keeps OfDevices (invalidate_transactions now xs)
  unfolding invalidate_transactions
  invalidate_transactions-Keeps now [] = search frame
  invalidate_transactions-Keeps now ((t, c) ∷ xs) =
      Keeps-bind _ _
        (dispose-Keeps (disposal c.status) _ now _ _ (decline_transaction-Keeps t) (Keeps-pure _))
        (λ ids. Keeps-bind _ _ (invalidate_transactions-Keeps now xs) (λ more. Keeps-pure _))

  pub invalidate-Keeps :
      (device_id : Text) (now : ℕ)
      → Keeps OfDevices (invalidate_outstanding_challenges device_id now)
  unfolding invalidate_outstanding_challenges
  invalidate-Keeps device_id now =
      search
        (
          frame, plan-Keeps, assert_cancellable-Keeps, invalidate_requests-Keeps,
          invalidate_transactions-Keeps,
        )
        depth 20

  reserve-Keeps :
      (t : PaymentToken) (input : AuthorizeInput) (now : ℕ) → Keeps OfDevices (reserve t input now)
  unfolding reserve ◌>>=◌
  reserve-Keeps t input now = record { at = λ s h. ground arith }

  admit-Keeps : (input : AuthorizeInput) → Keeps OfDevices (admit input)
  unfolding admit
  admit-Keeps input = search frame depth 20

  module _ (platform : Platform) where
    pub request-provisioning-Keeps :
        (input : ProvisioningInput) (now : ℕ) (ids : RandomIds)
        → Keeps OfDevices (request_provisioning platform input now ids)
    unfolding request_provisioning
    request-provisioning-Keeps input now ids = search frame depth 20

    pub approve-Keeps :
        (id : Text) (approval : SignedApproval) (now : ℕ) (activation : Activation) (event : Text)
        → Keeps OfDevices (approve_provisioning platform id approval now activation event)
    unfolding approve_provisioning
    approve-Keeps id approval now activation event = search frame depth 20

    issue-Keeps :
        (input : AuthorizeInput) (now : ℕ) (challenge event : Text) (token : PaymentToken)
        (r : Option CapReservation)
        → Keeps OfDevices (issue_challenge platform input now challenge event token r)
    unfolding issue_challenge
    issue-Keeps input now challenge event token r = search frame depth 20

    pub authorize-Keeps :
        (input : AuthorizeInput) (now : ℕ) (challenge event : Text)
        → Keeps OfDevices (authorize platform input now challenge event)
    unfolding authorize
    authorize-Keeps input now challenge event =
        search (frame, admit-Keeps, reserve-Keeps, issue-Keeps) depth 20

    pub confirm-Keeps :
        (id : Text) (approval : SignedApproval) (now : ℕ) (event : Text)
        → Keeps OfDevices (confirm_transaction_with platform id approval now event)
    unfolding confirm_transaction_with
    confirm-Keeps id approval now event = search frame depth 20

    pub reverse-Keeps :
        (id : Text) (now : ℕ) (event : Text)
        → Keeps OfDevices (expire_and_reverse platform id now event)
    unfolding expire_and_reverse
    reverse-Keeps id now event = search (frame, release-Keeps) depth 20

    pub clearing-Keeps :
        (id : Text) (now : ℕ) (event : Text)
        → Keeps OfDevices (receive_clearing platform id now event)
    unfolding receive_clearing
    clearing-Keeps id now event = search frame depth 20
