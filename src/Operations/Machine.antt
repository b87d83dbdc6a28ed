-- ===== src/Operations/Machine.antt =====
-- packages/customer-operations/operationsStateMachine.ts: the state machine's private parts. The hashes
-- of a request and of an audit event, and random ids, are parameters.
pub mod Calls
use contactless_airlock_lab.Prelude.{
  ◌≡◌, ℕ, ◌+◌, Bool, true, false, not, Option, none, some, List, [], ◌∷◌, ◌++◌, Text, text, Map,
  leb, length, matches_id, ◌==◌, text_Eq, if◌then◌else◌, lookup, insert, Result, ok, err, Exec,
  ◌>>=◌, ◌>>◌, pure, lift, gets, fetch, modify, guard, raise,
}
use contactless_airlock_lab.Operations.{
  CaseType, CaseState, expired, Role, system, Actor, Case, Override, EventType, case_reached,
  EventBody, Event, Template, Intent, OperationsError, invalid_id, invalid_reason,
  cross_tenant_actor, case_not_found, case_is_terminal, case_has_expired, override_not_found,
  idempotency_conflict, is_terminal, is_reason, is_optional_id,
}

pub record OpenInput : Type 0 where
  pub tenant_id : Text
  pub case_type : CaseType
  pub subject_ref : Text
  pub subject_device_id : Option Text
  pub reason : Text
  pub correlation_id : Text
  pub actor : Actor
  pub idempotency_key : Text
  pub ttl_ms : ℕ
  pub now : ℕ
  pub case_id : Option Text

pub data ProofMethod : Type 0 where
  existing_passkey : ProofMethod
  in_person_strong_identity : ProofMethod
  bank_verified_strong_identity : ProofMethod

-- The proof method is there in a call by `verifyRecoveryProof` only.
pub record TransitionInput : Type 0 where
  pub tenant_id : Text
  pub case_id : Text
  pub next_state : CaseState
  pub reason : Text
  pub actor : Actor
  pub idempotency_key : Text
  pub now : ℕ
  pub proof_method : Option ProofMethod

pub record ResetInput : Type 0 where
  pub tenant_id : Text
  pub case_id : Text
  pub reason : Text
  pub actor : Actor
  pub idempotency_key : Text
  pub ttl_ms : ℕ
  pub now : ℕ
  pub override_id : Option Text

pub record ApproveInput : Type 0 where
  pub tenant_id : Text
  pub override_id : Text
  pub reason : Text
  pub actor : Actor
  pub idempotency_key : Text
  pub now : ℕ

-- What `#once` hashes.
pub data Request : Type 0 where
  opens : OpenInput → Request
  transits : TransitionInput → Request
  requests_reset : ResetInput → Request
  approves_reset : ApproveInput → Request

pub data Response : Type 0 where
  case_response : Case → Response
  override_response : Override → Response

-- The keys of a request.
abbrev pub tenant_of : Request → Text
tenant_of (opens i) = i.tenant_id
tenant_of (transits i) = i.tenant_id
tenant_of (requests_reset i) = i.tenant_id
tenant_of (approves_reset i) = i.tenant_id

abbrev pub idempotency_key_of : Request → Text
idempotency_key_of (opens i) = i.idempotency_key
idempotency_key_of (transits i) = i.idempotency_key
idempotency_key_of (requests_reset i) = i.idempotency_key
idempotency_key_of (approves_reset i) = i.idempotency_key

pub record Prior : Type 0 where
  pub request_hash : Text
  pub outcome : Result OperationsError Response

pub record CustomerOperations : Type 0 where
  pub cases : Map Text Case
  pub overrides : Map Text Override
  pub audit : List Event
  pub intents : List Intent
  pub idempotency : Map Text Prior

abbrev pub Op : Type 0 → Type 0
Op = Exec OperationsError CustomerOperations

-- hash(stable(value)), of a request and of an event
pub record Hashes : Type 0 where
  pub request : Request → Text
  pub event : EventBody → Text

-- The ids that one call draws from `randomUUID`.
pub record RandomIds : Type 0 where
  pub fresh : Text
  pub first_event : Text
  pub second_event : Text
  pub intent : Text

-- `${tenantId}:${id}`
abbrev pub scoped : Text → Text → Text
scoped tenant id = tenant ++ b':' ∷ id

-- `${tenantId}\u0000${idempotencyKey}`
abbrev pub idempotency_key : Text → Text → Text
idempotency_key tenant key = tenant ++ 0 ∷ key

abbrev pub put_case : Text → Case → CustomerOperations → CustomerOperations
put_case key c s = record s { cases = insert key c s.cases }

abbrev pub put_override : Text → Override → CustomerOperations → CustomerOperations
put_override key o s = record s { overrides = insert key o s.overrides }

abbrev pub put_prior : Text → Prior → CustomerOperations → CustomerOperations
put_prior key p s = record s { idempotency = insert key p s.idempotency }

-- `this.#audit.at(-1)?.hash ?? "GENESIS"`
abbrev pub last_event_hash : Text → List Event → Text
last_event_hash previous [] = previous
last_event_hash previous (e ∷ es) = last_event_hash e.hash es

unfoldable pub assert_id : Text → Op (Unit {0})
assert_id s = guard (matches_id s) invalid_id

unfoldable pub assert_actor : Text → Actor → Op (Unit {0})
unfolding assert_id
assert_actor tenant actor = do
  guard (actor.tenant_id == tenant) cross_tenant_actor
  assert_id actor.actor_id
  guard (is_optional_id actor.device_id) invalid_id

abbrev pub system_actor : Text → Actor
system_actor tenant = record {
  tenant_id = tenant;
  actor_id = text "system";
  role = system;
  device_id = none;
}

-- { ...actor, actorId: "system", role: "system" }
abbrev pub as_system : Actor → Actor
as_system actor = record actor { actor_id = text "system"; role = system }

unfoldable pub notify : Case → Template → ℕ → Text → Op (Unit {0})
notify value template now intent_id = modify λ s. record s {
  intents =
      s.intents
      ++ record {
        intent_id = intent_id;
        tenant_id = value.tenant_id;
        case_id = value.case_id;
        template = template;
        synthetic_recipient_ref = value.subject_ref;
        created_at = now;
      }
        ∷ [];
}

unfoldable pub must_override : Text → Text → Op Override
unfolding assert_id
must_override tenant override_id = do
  assert_id tenant
  assert_id override_id
  fetch (λ s. lookup (scoped tenant override_id) s.overrides) override_not_found

module _ (hashes : Hashes) where
  abbrev pub new_event : Case → EventType → Actor → Text → ℕ → Text → List Event → Event
  new_event value type actor reason now event_id log =
      let body : EventBody = record {
        sequence = length log + 1;
        event_id = event_id;
        tenant_id = value.tenant_id;
        case_id = value.case_id;
        type = type;
        actor_id = actor.actor_id;
        actor_role = actor.role;
        reason = reason;
        correlation_id = value.correlation_id;
        occurred_at = now;
        previous_hash = last_event_hash (text "GENESIS") log;
      } in
      record { body = body; hash = hashes.event body }

  unfoldable pub append_audit : Case → EventType → Actor → Text → ℕ → Text → Op (Unit {0})
  append_audit value type actor reason now event_id = do
    guard (is_reason reason) invalid_reason
    modify λ s. record s {
      audit = s.audit ++ new_event value type actor reason now event_id s.audit ∷ [];
    }

  unfoldable pub active_case : Text → Text → ℕ → Text → Op Case
  active_case tenant case_id now event_id = do
    value ← fetch (λ s. lookup (scoped tenant case_id) s.cases) case_not_found
    guard (not (is_terminal value.state)) case_is_terminal
    if leb value.expires_at now
        then (do
          let over = record value { state = expired; updated_at = now }
          modify (put_case (scoped tenant case_id) over)
          append_audit over (case_reached expired) (system_actor tenant)
              (text "case lifetime expired") now event_id
          raise case_has_expired)
        else pure value

  -- A request that was answered before.
  unfoldable pub replay : Text → Prior → Op Response
  replay request_hash prior = do
    guard (prior.request_hash == request_hash) idempotency_conflict
    lift prior.outcome

  -- The `try`: the outcome is kept under the key, an error's too.
  abbrev pub keep_outcome :
      Text
      → Text
      → Result OperationsError Response × CustomerOperations
      → Result OperationsError Response × CustomerOperations
  keep_outcome key request_hash (r, s) =
      (r, put_prior key (record { request_hash = request_hash; outcome = r }) s)

  unfoldable pub first_or_replay : Text → Text → Option Prior → Op Response → Op Response
  first_or_replay key request_hash (some prior) work s = replay request_hash prior s
  first_or_replay key request_hash none work s = keep_outcome key request_hash (work s)

  unfoldable pub once : Request → Op Response → Op Response
  unfolding first_or_replay replay assert_id
  once request work = do
    assert_id (tenant_of request)
    assert_id (idempotency_key_of request)
    let key = idempotency_key (tenant_of request) (idempotency_key_of request)
    prior ← gets (λ s. lookup key s.idempotency)
    first_or_replay key (hashes.request request) prior work
