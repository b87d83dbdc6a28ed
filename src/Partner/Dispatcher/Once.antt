-- ===== src/Partner/Dispatcher/Once.antt =====
-- packages/partner-transport/dispatcher.ts: dispatchOnce over the outbox of the durable store.
use contactless_airlock_lab.Prelude.{
  ◌≡◌, ◌≢◌, ℕ, ◌+◌, true, ◌&&◌, Option, none, some, List, [], ◌∷◌, ◌++◌, Text, arith, leb, ltb,
  get_or, ◌==◌, text_Eq, text_eq_iff, lookup, Bool-cases, Result-cases, ◌⊎◌, inl, inr, ok, ◌>>=◌,
  lift, Keeps, Keeps-modify, Keeps-bind, Keeps-bind_with, Keeps-lift, Keeps-gets, Keeps-guard,
  Keeps-pure, Keeps-if,
}
use contactless_airlock_lab.Storage.{OutboxEvent, OutboxTable}
use contactless_airlock_lab.Storage.Outbox.{acknowledge_outbox}
use contactless_airlock_lab.Partner.{Digests, PartnerSigningKey}
use contactless_airlock_lab.Partner.Dispatcher.{
  outbox_source, Failure, retries_exhausted, permanent_response, Options, Attempt, Dispatcher,
  Encoding, is_success, is_transient, ask, is_exhausted, give_back, record_failure, record_letter,
  dead_letter, release_later, acknowledge_delivery, settle_transient, settle, send_bounded,
  send_event, try_event, after_failure, dispatch_event, dispatch_all, dispatch_once,
}
use contactless_airlock_lab.Partner.Dispatcher.Answered.{
  Waits, release-Waits, acknowledge-Waits, claim-Waits, is_buried, buried_more, buried_last, IsFine,
  waits, answered, buried, source-IsFine, ask_state, ask-Keeps, recover-Keeps,
}

module _ (attempt : OutboxEvent → Attempt) (id : Text) where
  -- What may stand behind an acknowledgement of the event.
  abbrev Settled : Dispatcher OutboxTable → Type 0
  Settled s =
      ((e : OutboxEvent) × (e.event_id ≡ id) × (is_success (attempt e).response ≡ true))
      ⊎ (is_buried id s.dead_letters ≡ true)

  abbrev Fine : Dispatcher OutboxTable → Type 0
  Fine s = IsFine attempt id s

  Settled-Fine : (s : Dispatcher OutboxTable) → Settled s → Fine s
  Settled-Fine s (inl (e, same, success)) = answered e same success
  Settled-Fine s (inr h) = buried h

  -- The acknowledgement of an event keeps what is fine, if it is another one or settled.
  abbrev Ready : OutboxEvent → Dispatcher OutboxTable → Type 0
  Ready e s = Fine s × (e.event_id ≡ id → Settled s)

  acknowledge-Ready :
      (e : OutboxEvent) (worker : Text) (now : ℕ)
      → Keeps (Ready e) (ask (acknowledge_outbox e.event_id worker now))
  acknowledge-Ready e worker now = record {
    at = λ s (h, settled). rw (ask_state attempt id (acknowledge_outbox e.event_id worker now) s) (
      (elim (Bool-cases (e.event_id == id)) [
        | inl this ↦
            Settled-Fine
              (record s { source = (acknowledge_outbox e.event_id worker now s.source).1 })
              (settled ((text_eq_iff e.event_id id).0 this))
        | inr other ↦
            source-IsFine attempt id s (acknowledge_outbox e.event_id worker now s.source).1
              (acknowledge-Waits id e.event_id worker now s.source
                (λ p. ground (arith, other, text_eq_iff e.event_id id)))
              h
      ]),
      settled,
    );
  }

  letter-Ready :
      (e : OutboxEvent) (s : Dispatcher OutboxTable)
      → Fine s
      → Ready e (record s { dead_letters = s.dead_letters ++ e ∷ [] })
  letter-Ready e s h = (more h, λ same. inr (rw (← same) (buried_last e s.dead_letters)))
    where
      more : Fine s → Fine (record s { dead_letters = s.dead_letters ++ e ∷ [] })
      more (waits w) = waits w
      more (answered f same success) = answered f same success
      more (buried b) = buried (buried_more id s.dead_letters (e ∷ []) b)

  module _ (o : Options) (x : Encoding) (d : Digests) (key : PartnerSigningKey) where
    dead_letter-Keeps :
        (sink_error : Option Text) (e : OutboxEvent) (reason : Failure) (failed_at : ℕ)
        (status : Option ℕ)
        → Keeps Fine (dead_letter outbox_source o x d key sink_error e reason failed_at status)
    unfolding dead_letter record_letter ◌>>=◌
    dead_letter-Keeps (some message) e reason failed_at status = record { at = λ s h. h }
    dead_letter-Keeps none e reason failed_at status = record {
      at = λ s h.
          ((Keeps-bind {P = Ready e} (ask (acknowledge_outbox e.event_id o.worker_id failed_at)) _
              (acknowledge-Ready e o.worker_id failed_at) (λ u. Keeps-pure _)).at
            (record s { dead_letters = s.dead_letters ++ e ∷ [] }) (letter-Ready e s h)).0;
    }

    counters :
        (s : Dispatcher OutboxTable) (n until : ℕ)
        → Fine s
        → Fine (record s { consecutive_failures = n; circuit_open_until = until })
    counters s n until (waits w) = waits w
    counters s n until (answered e same success) = answered e same success
    counters s n until (buried h) = buried h

    record_failure-Keeps : (at : ℕ) → Keeps Fine (record_failure outbox_source o x d key at)
    unfolding record_failure
    record_failure-Keeps at = Keeps-modify _ (λ s h. counters s _ _ h)

    release_later-Keeps :
        (e : OutboxEvent) (at : ℕ) → Keeps Fine (release_later outbox_source o x d key e at)
    unfolding release_later
    release_later-Keeps e at =
        ask-Keeps attempt id _
          (release-Waits id e.event_id o.worker_id (at + get_or 5000 o.retry_delay_ms) at)

    acknowledge_delivery-Keeps :
        (e : OutboxEvent) (status : ℕ)
        → is_success (attempt e).response ≡ true
        → Keeps Fine (acknowledge_delivery outbox_source o x d key e (attempt e) status)
    unfolding acknowledge_delivery ◌>>=◌
    acknowledge_delivery-Keeps e status success = record {
      at = λ s h.
          ((Keeps-bind {P = Ready e}
              (ask (acknowledge_outbox e.event_id o.worker_id (attempt e).completed)) _
              (acknowledge-Ready e o.worker_id (attempt e).completed) (λ u. Keeps-pure _)).at
            (record s { consecutive_failures = 0; circuit_open_until = 0 })
            (counters s 0 0 h, λ same. inl (e, same, success))).0;
    }

    settle_transient-Keeps :
        (e : OutboxEvent) (a : Attempt) (status : ℕ)
        → Keeps Fine (settle_transient outbox_source o x d key e a status)
    unfolding settle_transient
    settle_transient-Keeps e a status = Keeps-bind _ _ (record_failure-Keeps a.completed) (λ u.
        Keeps-if (is_exhausted outbox_source o x d key e) _ _
          (dead_letter-Keeps a.sink_error e retries_exhausted a.completed (some status))
          (Keeps-bind _ _ (release_later-Keeps e a.completed) (λ v. Keeps-pure _)))

    settle-Keeps :
        (e : OutboxEvent) (status : ℕ)
        → (attempt e).response ≡ ok status
        → Keeps Fine (settle outbox_source o x d key e (attempt e) status)
    unfolding settle
    settle-Keeps e status is = elim (Bool-cases (is_success (ok status))) [
      | inl success ↦ rw success (acknowledge_delivery-Keeps e status (rw is success))
      | inr other ↦ rw other (
          Keeps-if (is_transient status) _ _ (settle_transient-Keeps e (attempt e) status) (
            dead_letter-Keeps (attempt e).sink_error e permanent_response (attempt e).completed
              (some status)))
    ]

    sent_response :
        (a : Attempt) (status : ℕ)
        → send_bounded outbox_source o x d key a ≡ ok status
        → a.response ≡ ok status
    sent_response a status h =
        let timeout = get_or 10000 o.request_timeout_ms in
        elim (Bool-cases (leb 1 timeout && leb timeout 60000)) [
          | inr fails ↦ absurd (ground (arith, h, fails))
          | inl passes ↦ elim (Result-cases a.response) [
            | inl (n, is) ↦ ground (arith, h, passes, is)
            | inr (message, is) ↦ absurd (ground (arith, h, passes, is))
          ]
        ]

    send_event-Keeps :
        (e : OutboxEvent) → Keeps Fine (send_event outbox_source o x d key e (attempt e))
    unfolding send_event ◌>>=◌
    send_event-Keeps e = Keeps-bind _ _ (Keeps-lift _) (λ headers.
        Keeps-bind_with (λ status. (attempt e).response ≡ ok status)
          (lift (send_bounded outbox_source o x d key (attempt e))) _ (Keeps-lift _)
          (λ s status h is. sent_response (attempt e) status is)
          (λ status is. settle-Keeps e status is))

    try_event-Keeps :
        (e : OutboxEvent) → Keeps Fine (try_event outbox_source o x d key e (attempt e))
    unfolding try_event
    try_event-Keeps e = Keeps-bind _ _ (Keeps-gets _) (λ open_until.
        Keeps-if (ltb (attempt e).before_send open_until) _ _
          (Keeps-bind _ _
            (ask-Keeps attempt id _
              (release-Waits id e.event_id o.worker_id open_until (attempt e).before_send))
            (λ u. Keeps-pure _))
          (send_event-Keeps e))

    give_back-Keeps :
        (e : OutboxEvent) (a : Attempt) (failure : Failure)
        → Keeps Fine (give_back outbox_source o x d key e a failure)
    give_back-Keeps e a failure =
        Keeps-bind _ _
          (recover-Keeps attempt id _ _ (release_later-Keeps e a.failed_at) (λ u. Keeps-pure _))
          (λ u. Keeps-pure _)

    after_failure-Keeps :
        (e : OutboxEvent) (a : Attempt) (failure : Failure)
        → Keeps Fine (after_failure outbox_source o x d key e a failure)
    unfolding after_failure
    after_failure-Keeps e a failure = Keeps-bind _ _ (record_failure-Keeps a.failed_at) (λ u.
        Keeps-if (is_exhausted outbox_source o x d key e) _ _
          (recover-Keeps attempt id _ _
            (dead_letter-Keeps a.later_sink_error e failure a.failed_at none)
            (λ ignored. give_back-Keeps e a failure))
          (give_back-Keeps e a failure))

    dispatch_event-Keeps :
        (e : OutboxEvent) → Keeps Fine (dispatch_event outbox_source o x d key e (attempt e))
    unfolding dispatch_event
    dispatch_event-Keeps e =
        recover-Keeps attempt id _ _ (try_event-Keeps e) (after_failure-Keeps e (attempt e))

    dispatch_all-Keeps :
        (es : List OutboxEvent) → Keeps Fine (dispatch_all outbox_source o x d key attempt es)
    unfolding dispatch_all
    dispatch_all-Keeps [] = Keeps-pure _
    dispatch_all-Keeps (e ∷ es) =
        Keeps-bind _ _ (dispatch_event-Keeps e)
          (λ outcome. Keeps-bind _ _ (dispatch_all-Keeps es) (λ rest. Keeps-pure _))

    dispatch_once-Keeps :
        (started : ℕ) → Keeps Fine (dispatch_once outbox_source o x d key attempt started)
    unfolding dispatch_once
    dispatch_once-Keeps started = Keeps-bind _ _ (Keeps-guard _ _) (λ u.
        Keeps-bind _ _
          (ask-Keeps attempt id _
            (claim-Waits id o.worker_id (get_or 10 o.batch_size) (get_or 30000 o.lease_ms) started))
          (λ events. dispatch_all-Keeps events))

    -- Over the outbox of the durable store, an event that is not delivered before `dispatchOnce`
    -- and is delivered after it was sent, under its event id, with a response of a 2xx status, or
    -- is among the dead letters that the sink recorded.
    pub acknowledged_after :
        (started : ℕ) (row later : OutboxEvent) (s : Dispatcher OutboxTable)
        → lookup id s.source ≡ some row
        → row.delivered_at ≡ none
        → let s' = (dispatch_once outbox_source o x d key attempt started s).1 in
          lookup id s'.source ≡ some later
          → later.delivered_at ≢ none
          → ((e : OutboxEvent) × (e.event_id ≡ id) × (is_success (attempt e).response ≡ true))
            ⊎ (is_buried id s'.dead_letters ≡ true)
    acknowledged_after started row later s found waiting after over =
        let s' = (dispatch_once outbox_source o x d key attempt started s).1 in
        let w : Waits id s.source = record { row = row; stored = found; undelivered = waiting } in
        judged s' ((dispatch_once-Keeps started).at s (waits w)) after
      where
        judged :
            (s' : Dispatcher OutboxTable) → Fine s' → lookup id s'.source ≡ some later → Settled s'
        judged s' (waits v) stored = absurd (over (ground (arith, stored, v.stored, v.undelivered)))
        judged s' (answered e same success) stored = inl (e, same, success)
        judged s' (buried h) stored = inr h
