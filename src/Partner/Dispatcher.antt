-- ===== src/Partner/Dispatcher.antt =====
-- packages/partner-transport/dispatcher.ts: PartnerOutboxDispatcher over a source of leases. What the
-- clock, the adapter (with its timeout) and the sink do with an event is its `Attempt`.
pub mod Answered
pub mod Once
use contactless_airlock_lab.Prelude.{
  ◌≡◌, ℕ, ◌+◌, ◌/◌, Bool, true, false, not, ◌&&◌, ◌||◌, Option, none, some, List, [], ◌∷◌, ◌++◌,
  Text, text, ltb, leb, nat_eq, get_or, ◌==◌, text_Eq, if◌then◌else◌, Result, ok, err, Exec, ◌>>=◌,
  ◌>>◌, pure, raise, lift, gets, modify, guard,
}
use contactless_airlock_lab.Storage.{OutboxEvent, OutboxTable, StorageError}
use contactless_airlock_lab.Storage.Outbox.{claim_outbox, acknowledge_outbox, release_outbox}
use contactless_airlock_lab.Partner.{
  PartnerError, Digests, PartnerSigningKey, Headers, sign_partner_webhook,
}
use contactless_airlock_lab.Partner.Json.{Json, fields_of, get_field, string_or_empty}
use contactless_airlock_lab.Partner.Contract.{partner_envelope_failure}

-- OutboxLeaseSource
pub record LeaseSource (T : Type 0) : Type 0 where
  pub claim : Text → ℕ → ℕ → ℕ → Exec StorageError T (List OutboxEvent)
  pub acknowledge : Text → Text → ℕ → Exec StorageError T (Unit {0})
  pub release : Text → Text → ℕ → ℕ → Exec StorageError T (Unit {0})

-- The outbox of the durable store is one.
abbrev pub outbox_source : LeaseSource OutboxTable
outbox_source = record {
  claim = claim_outbox;
  acknowledge = acknowledge_outbox;
  release = release_outbox;
}

-- What is thrown while an event is dispatched, and what is reported.
pub data Failure : Type 0 where
  invalid_policy : Failure
  of_source : StorageError → Failure
  of_envelope : Text → Failure
  mismatched_metadata : Failure
  of_signature : PartnerError → Failure
  invalid_timeout : Failure
  of_adapter : Text → Failure
  of_sink : Text → Failure
  circuit_open : Failure
  retries_exhausted : Failure
  permanent_response : Failure

pub record Options : Type 0 where
  pub worker_id : Text
  pub lease_ms : Option ℕ
  pub batch_size : Option ℕ
  pub retry_delay_ms : Option ℕ
  pub request_timeout_ms : Option ℕ
  pub maximum_attempts : Option ℕ
  pub circuit_failure_threshold : Option ℕ
  pub circuit_cooldown_ms : Option ℕ

pub data OutcomeKind : Type 0 where
  delivered : OutcomeKind
  retry_scheduled : OutcomeKind
  dead_lettered : OutcomeKind

pub record DispatchOutcome : Type 0 where
  pub event_id : Text
  pub outcome : OutcomeKind
  pub status : Option ℕ
  pub error : Option Failure

-- One event: the clock, the nonce, the response, and the error of the sink, called where the event is
-- sent or after a failure.
pub record Attempt : Type 0 where
  pub before_send : ℕ
  pub nonce : Text
  pub response : Result Text ℕ
  pub completed : ℕ
  pub failed_at : ℕ
  pub sink_error : Option Text
  pub later_sink_error : Option Text

-- The private state, the source's, and what the sink has recorded.
pub record Dispatcher (T : Type 0) : Type 0 where
  pub source : T
  pub consecutive_failures : ℕ
  pub circuit_open_until : ℕ
  pub dead_letters : List OutboxEvent

-- The parsed payload of an event, the body of an envelope, and the seconds of a timestamp as text.
pub record Encoding : Type 0 where
  pub parse_payload : Text → Json
  pub encode : Json → List ℕ
  pub print : ℕ → Text

abbrev pub is_success : Result Text ℕ → Bool
is_success (ok status) = leb 200 status && ltb status 300
is_success (err message) = false

abbrev pub is_transient : ℕ → Bool
is_transient status = nat_eq status 429 || leb 500 status

-- The policy's tests in `dispatchOnce`.
unfoldable pub is_policy : Options → Bool
is_policy o =
    let lease = get_or 30000 o.lease_ms in
    let timeout = get_or 10000 o.request_timeout_ms in
    let attempts = get_or 8 o.maximum_attempts in
    let threshold = get_or 5 o.circuit_failure_threshold in
    let delay = get_or 5000 o.retry_delay_ms in
    let cooldown = get_or 30000 o.circuit_cooldown_ms in
    leb 1 timeout
    && ltb timeout lease
    && leb lease 9007199254740991
    && leb 1 attempts
    && leb attempts 1000
    && leb 1 threshold
    && leb threshold 100
    && leb 1 delay
    && leb delay 3600000
    && leb 1 cooldown
    && leb cooldown 3600000

abbrev pub Op : Type 0 → Type 0 → Type 0
Op T A = Exec Failure (Dispatcher T) A

abbrev pub retry : OutboxEvent → Option ℕ → Option Failure → DispatchOutcome
retry e status error = record {
  event_id = e.event_id;
  outcome = retry_scheduled;
  status = status;
  error = error;
}

abbrev aggregate_of : Json → Text
aggregate_of j = elim (fields_of (some j)) [
  | none ↦ []
  | some fields ↦ string_or_empty (get_field (text "aggregateId") fields)
]

module _ {T A : Type 0} where
  abbrev pub from_source :
      Dispatcher T → Result StorageError A × T → Result Failure A × Dispatcher T
  from_source s (ok a, t) = (ok a, record s { source = t })
  from_source s (err e, t) = (err (of_source e), record s { source = t })

  -- A call of the source; its error is thrown on.
  unfoldable pub ask : Exec StorageError T A → Op T A
  ask m s = from_source s (m s.source)

  abbrev pub handled :
      (Failure → Op T A) → Result Failure A × Dispatcher T → Result Failure A × Dispatcher T
  handled handler (ok a, s) = (ok a, s)
  handled handler (err e, s) = handler e s

  -- try and catch
  unfoldable pub recover : Op T A → (Failure → Op T A) → Op T A
  recover m handler s = handled handler (m s)

abbrev mapped_error : {E A : Type 0} → (E → Failure) → Result E A → Result Failure A
mapped_error f (ok a) = ok a
mapped_error f (err e) = err (f e)

module _ {T : Type 0} (source : LeaseSource T) (o : Options) (x : Encoding) (d : Digests)
    (key : PartnerSigningKey) where
  unfoldable pub record_failure : ℕ → Op T (Unit {0})
  record_failure at = modify λ s.
      let failures = s.consecutive_failures + 1 in
      record s {
        consecutive_failures = failures;
        circuit_open_until =
            if leb (get_or 5 o.circuit_failure_threshold) failures
            then at + get_or 30000 o.circuit_cooldown_ms
            else s.circuit_open_until;
      }

  -- `deadLetterSink.record`
  unfoldable pub record_letter : Option Text → OutboxEvent → Op T (Unit {0})
  record_letter none e = modify λ s. record s { dead_letters = s.dead_letters ++ e ∷ [] }
  record_letter (some message) e = raise (of_sink message)

  unfoldable pub dead_letter :
      Option Text → OutboxEvent → Failure → ℕ → Option ℕ → Op T DispatchOutcome
  dead_letter sink_error e reason failed_at status = do
    record_letter sink_error e
    ask (source.acknowledge e.event_id o.worker_id failed_at)
    pure (record {
      event_id = e.event_id;
      outcome = dead_lettered;
      status = status;
      error = some reason;
    })

  abbrev pub is_exhausted : OutboxEvent → Bool
  is_exhausted e = leb (get_or 8 o.maximum_attempts) e.attempts

  unfoldable pub release_later : OutboxEvent → ℕ → Op T (Unit {0})
  release_later e at =
      ask (source.release e.event_id o.worker_id (at + get_or 5000 o.retry_delay_ms) at)

  unfoldable pub acknowledge_delivery : OutboxEvent → Attempt → ℕ → Op T DispatchOutcome
  acknowledge_delivery e a status = do
    modify λ s. record s { consecutive_failures = 0; circuit_open_until = 0 }
    ask (source.acknowledge e.event_id o.worker_id a.completed)
    pure (record { event_id = e.event_id; outcome = delivered; status = some status; error = none })

  unfoldable pub settle_transient : OutboxEvent → Attempt → ℕ → Op T DispatchOutcome
  settle_transient e a status = do
    record_failure a.completed
    if is_exhausted e
        then dead_letter a.sink_error e retries_exhausted a.completed (some status)
        else (release_later e a.completed >> pure (retry e (some status) none))

  -- What follows the response.
  unfoldable pub settle : OutboxEvent → Attempt → ℕ → Op T DispatchOutcome
  settle e a status =
      if is_success (ok status)
      then acknowledge_delivery e a status
      else (if is_transient status
          then settle_transient e a status
          else dead_letter a.sink_error e permanent_response a.completed (some status))

  -- `#sendBounded`; a request that takes too long has the timeout's error as its response.
  abbrev pub send_bounded : Attempt → Result Failure ℕ
  send_bounded a =
      let timeout = get_or 10000 o.request_timeout_ms in
      if leb 1 timeout && leb timeout 60000
      then mapped_error of_adapter a.response
      else err invalid_timeout

  abbrev pub signed_request : OutboxEvent → Attempt → Json → Result Failure Headers
  signed_request e a j = elim (partner_envelope_failure j) [
    | some message ↦ err (of_envelope message)
    | none ↦
        if aggregate_of j == e.aggregate_id
        then mapped_error of_signature (
            sign_partner_webhook d x.print (x.encode j) e.event_key a.nonce (a.before_send / 1000)
              key)
        else err mismatched_metadata
  ]

  unfoldable pub send_event : OutboxEvent → Attempt → Op T DispatchOutcome
  send_event e a = do
    _ ← lift (signed_request e a (x.parse_payload e.payload))
    status ← lift (send_bounded a)
    settle e a status

  -- The body of the `try`.
  unfoldable pub try_event : OutboxEvent → Attempt → Op T DispatchOutcome
  try_event e a = do
    open_until ← gets (λ s. s.circuit_open_until)
    if ltb a.before_send open_until
        then (ask (source.release e.event_id o.worker_id open_until a.before_send)
            >> pure (retry e none (some circuit_open)))
        else send_event e a

  abbrev pub give_back : OutboxEvent → Attempt → Failure → Op T DispatchOutcome
  give_back e a failure =
      recover (release_later e a.failed_at) (λ ignored. pure tt)
      >> pure (retry e none (some failure))

  -- The `catch`.
  unfoldable pub after_failure : OutboxEvent → Attempt → Failure → Op T DispatchOutcome
  after_failure e a failure = do
    record_failure a.failed_at
    if is_exhausted e
        then recover (dead_letter a.later_sink_error e failure a.failed_at none)
            (λ ignored. give_back e a failure)
        else give_back e a failure

  unfoldable pub dispatch_event : OutboxEvent → Attempt → Op T DispatchOutcome
  dispatch_event e a = recover (try_event e a) (after_failure e a)

  unfoldable pub dispatch_all :
      (OutboxEvent → Attempt) → List OutboxEvent → Op T (List DispatchOutcome)
  dispatch_all attempt [] = pure []
  dispatch_all attempt (e ∷ es) = dispatch_event e (attempt e) >>= λ outcome.
      dispatch_all attempt es >>= λ rest. pure (outcome ∷ rest)

  unfoldable pub dispatch_once : (OutboxEvent → Attempt) → ℕ → Op T (List DispatchOutcome)
  dispatch_once attempt started = do
    guard (is_policy o) invalid_policy
    events ←
        ask (source.claim o.worker_id (get_or 10 o.batch_size) (get_or 30000 o.lease_ms) started)
    dispatch_all attempt events
