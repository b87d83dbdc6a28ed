-- ===== src/Operations/Trail.antt =====
-- packages/customer-operations/operationsStateMachine.ts: `verifyAudit`, and the audit events that the
-- methods append.
use contactless_airlock_lab.Prelude.{
  ◌≡◌, refl, ℕ, ◌+◌, Bool, true, ◌&&◌, Text, text, text_Eq, text_eq_iff, Option, none, some, List,
  [], ◌∷◌, ◌++◌, nat_eq, length, arith, ◌==◌, modify, Keeps, keeps_rules, Keeps-bind, Keeps-modify,
  Keeps-guard, Keeps-gets, Keeps-lift,
}
use contactless_airlock_lab.Operations.{
  Case, Override, EventType, EventBody, Event, Actor, Template, OperationsError,
}
use contactless_airlock_lab.Operations.Machine.{
  OpenInput, TransitionInput, ResetInput, ApproveInput, opens, transits, requests_reset,
  approves_reset, Request, Response, Prior, CustomerOperations, Op, Hashes, RandomIds, put_case,
  put_override, assert_id, assert_actor, last_event_hash, new_event, notify, must_override,
  append_audit, active_case, once, first_or_replay, replay,
}
use contactless_airlock_lab.Operations.Machine.Calls.{
  open_work, apply_transition, transition_work, request_work, expire_override, execute_override,
  add_approval, approve_work, open_case, transition, request_trust_reset, approve_trust_reset,
}
use contactless_airlock_lab.Operations.Replay.{call, run}

module _ (hashes : Hashes) where
  -- The loop of `verifyAudit`, at the index and the hash expected next.
  unfoldable pub verify_events : ℕ → Text → List Event → Bool
  verify_events index previous [] = true
  verify_events index previous (e ∷ rest) =
      nat_eq e.body.sequence (index + 1)
      && e.body.previous_hash == previous
      && hashes.event e.body == e.hash
      && verify_events (index + 1) e.hash rest

  unfoldable pub verify_audit : CustomerOperations → Bool
  unfolding verify_events
  verify_audit s = verify_events 0 (text "GENESIS") s.audit

  verify_events-append :
      (index : ℕ) (previous : Text) (log : List Event) (body : EventBody)
      → verify_events index previous log ≡ true
      → body.sequence ≡ index + length log + 1
      → body.previous_hash ≡ last_event_hash previous log
      → verify_events index previous (log ++ record { body = body; hash = hashes.event body } ∷ [])
        ≡ true
  unfolding verify_events
  verify_events-append index previous [] body v n p = ground (
    arith,
    text_eq_iff body.previous_hash previous,
    text_eq_iff (hashes.event body) (hashes.event body),
  )
  verify_events-append index previous (e ∷ log) body v n p =
      ground (arith, verify_events-append (index + 1) e.hash log body)

  abbrev Verifies : CustomerOperations → Type 0
  Verifies s = verify_audit s ≡ true

  audit-Keeps :
      (c : Case) (type : EventType) (actor : Actor) (reason : Text) (now : ℕ) (id : Text)
      → Keeps Verifies (append_audit hashes c type actor reason now id)
  unfolding append_audit verify_audit
  audit-Keeps c type actor reason now id = Keeps-bind _ _ (Keeps-guard _ _) λ _.
      Keeps-modify _ λ s h.
        verify_events-append 0 (text "GENESIS") s.audit
          (new_event hashes c type actor reason now id s.audit).body h (omega arith) refl

  case-Keeps :
      (key : Text) (c : Case) → Keeps {E = OperationsError} Verifies (modify (put_case key c))
  unfolding verify_audit
  case-Keeps key c = Keeps-modify (put_case key c) (λ s h. h)

  override-Keeps :
      (key : Text) (o : Override)
      → Keeps {E = OperationsError} Verifies (modify (put_override key o))
  unfolding verify_audit
  override-Keeps key o = Keeps-modify (put_override key o) (λ s h. h)

  id-Keeps : (id : Text) → Keeps Verifies (assert_id id)
  unfolding assert_id
  id-Keeps id = search keeps_rules

  actor-Keeps : (tenant : Text) (actor : Actor) → Keeps Verifies (assert_actor tenant actor)
  unfolding assert_actor
  actor-Keeps tenant actor = search keeps_rules

  override_of-Keeps : (tenant id : Text) → Keeps Verifies (must_override tenant id)
  unfolding must_override
  override_of-Keeps tenant id = search keeps_rules

  notify-Keeps :
      (c : Case) (template : Template) (now : ℕ) (id : Text)
      → Keeps Verifies (notify c template now id)
  unfolding notify verify_audit
  notify-Keeps c template now id = Keeps-modify _ (λ s h. h)

  ruleset trail_rules = (
    keeps_rules, case-Keeps, override-Keeps, id-Keeps, actor-Keeps, override_of-Keeps, notify-Keeps,
    audit-Keeps,
  )

  active-Keeps :
      (tenant case_id : Text) (now : ℕ) (id : Text)
      → Keeps Verifies (active_case hashes tenant case_id now id)
  unfolding active_case
  active-Keeps tenant case_id now id = search trail_rules depth 20

  module _ (ids : RandomIds) where
    open-Keeps : (input : OpenInput) → Keeps Verifies (open_work hashes ids input)
    unfolding open_work
    open-Keeps input = search trail_rules depth 30

    transition-Keeps : (input : TransitionInput) → Keeps Verifies (transition_work hashes ids input)
    unfolding transition_work apply_transition
    transition-Keeps input = search (trail_rules, active-Keeps) depth 30

    request-Keeps : (input : ResetInput) → Keeps Verifies (request_work hashes ids input)
    unfolding request_work
    request-Keeps input = search (trail_rules, active-Keeps) depth 30

    add-Keeps :
        (input : ApproveInput) (c : Case) (o : Override)
        → Keeps Verifies (add_approval hashes ids input c o)
    unfolding add_approval execute_override
    add-Keeps input c o = search trail_rules depth 30

    expire-Keeps :
        (input : ApproveInput) (c : Case) (o : Override)
        → Keeps Verifies (expire_override hashes ids input c o)
    unfolding expire_override
    expire-Keeps input c o = search trail_rules depth 20

    approve-Keeps : (input : ApproveInput) → Keeps Verifies (approve_work hashes ids input)
    unfolding approve_work
    approve-Keeps input = search (trail_rules, active-Keeps, add-Keeps, expire-Keeps) depth 30

    first-Keeps :
        (key h : Text) (prior : Option Prior) (work : Op Response)
        → Keeps Verifies work
        → Keeps Verifies (first_or_replay hashes key h prior work)
    unfolding first_or_replay replay verify_audit
    first-Keeps key h none work k = record { at = k.at }
    first-Keeps key h (some prior) work k = record {
      at = (Keeps-bind _ _ (Keeps-guard _ _) (λ _. Keeps-lift _)).at;
    }

    once-Keeps :
        (r : Request) (work : Op Response)
        → Keeps Verifies work
        → Keeps Verifies (once hashes r work)
    unfolding once
    once-Keeps r work k = Keeps-bind _ _ (id-Keeps _) λ _.
        Keeps-bind _ _ (id-Keeps _)
          λ _. Keeps-bind _ _ (Keeps-gets _) λ prior. first-Keeps _ _ prior work k

    call-Keeps : (r : Request) → Keeps Verifies (call hashes ids r)
    unfolding open_case transition request_trust_reset approve_trust_reset
    call-Keeps (opens input) = once-Keeps (opens input) _ (open-Keeps input)
    call-Keeps (transits input) = once-Keeps (transits input) _ (transition-Keeps input)
    call-Keeps (requests_reset input) = once-Keeps (requests_reset input) _ (request-Keeps input)
    call-Keeps (approves_reset input) = once-Keeps (approves_reset input) _ (approve-Keeps input)

  -- If the audit events of the customer operations pass `verifyAudit`, they do so after whatever
  -- requests, also those that throw.
  pub verify_audit-run :
      (rs : List (RandomIds × Request)) (s : CustomerOperations)
      → verify_audit s ≡ true
      → verify_audit (run hashes rs s) ≡ true
  verify_audit-run [] s h = h
  verify_audit-run ((ids, r) ∷ rs) s h =
      verify_audit-run rs (call hashes ids r s).1 ((call-Keeps ids r).at s h)
