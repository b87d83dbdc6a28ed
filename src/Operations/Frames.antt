-- ===== src/Operations/Frames.antt =====
-- packages/customer-operations/operationsStateMachine.ts: the work of the methods, and the outcomes that
-- are kept under the idempotency keys.
use contactless_airlock_lab.Prelude.{
  ℕ, Text, Map, Keeps, keeps_rules, Keeps-modify, Keeps-guard, Keeps-bind, modify,
}
use contactless_airlock_lab.Operations.{Case, Override, EventType, Actor, Template, OperationsError}
use contactless_airlock_lab.Operations.Machine.{
  OpenInput, TransitionInput, ResetInput, ApproveInput, Prior, CustomerOperations, Hashes,
  RandomIds, put_case, put_override, assert_id, assert_actor, notify, must_override, append_audit,
  active_case,
}
use contactless_airlock_lab.Operations.Machine.Calls.{
  open_work, apply_transition, transition_work, request_work, expire_override, execute_override,
  add_approval, approve_work,
}

module _ (Q : Map Text Prior → Type 0) where
  abbrev pub OfOutcomes : CustomerOperations → Type 0
  OfOutcomes s = Q s.idempotency

  case-Keeps :
      (key : Text) (c : Case) → Keeps {E = OperationsError} OfOutcomes (modify (put_case key c))
  case-Keeps key c = Keeps-modify (put_case key c) (λ s h. h)

  override-Keeps :
      (key : Text) (o : Override)
      → Keeps {E = OperationsError} OfOutcomes (modify (put_override key o))
  override-Keeps key o = Keeps-modify (put_override key o) (λ s h. h)

  id-Keeps : (id : Text) → Keeps OfOutcomes (assert_id id)
  unfolding assert_id
  id-Keeps id = search keeps_rules

  actor-Keeps : (tenant : Text) (actor : Actor) → Keeps OfOutcomes (assert_actor tenant actor)
  unfolding assert_actor
  actor-Keeps tenant actor = search keeps_rules

  override_of-Keeps : (tenant id : Text) → Keeps OfOutcomes (must_override tenant id)
  unfolding must_override
  override_of-Keeps tenant id = search keeps_rules

  notify-Keeps :
      (c : Case) (template : Template) (now : ℕ) (id : Text)
      → Keeps OfOutcomes (notify c template now id)
  unfolding notify
  notify-Keeps c template now id = Keeps-modify _ (λ s h. h)

  module _ (hashes : Hashes) where
    audit-Keeps :
        (c : Case) (type : EventType) (actor : Actor) (reason : Text) (now : ℕ) (id : Text)
        → Keeps OfOutcomes (append_audit hashes c type actor reason now id)
    unfolding append_audit
    audit-Keeps c type actor reason now id =
        Keeps-bind _ _ (Keeps-guard _ _) (λ _. Keeps-modify _ (λ s h. h))

    ruleset frame = (
      keeps_rules, case-Keeps, override-Keeps, id-Keeps, actor-Keeps, override_of-Keeps,
      notify-Keeps, audit-Keeps,
    )

    active-Keeps :
        (tenant case_id : Text) (now : ℕ) (id : Text)
        → Keeps OfOutcomes (active_case hashes tenant case_id now id)
    unfolding active_case
    active-Keeps tenant case_id now id = search frame depth 20

    module _ (ids : RandomIds) where
      pub open-Keeps : (input : OpenInput) → Keeps OfOutcomes (open_work hashes ids input)
      unfolding open_work
      open-Keeps input = search frame depth 30

      pub transition-Keeps :
          (input : TransitionInput) → Keeps OfOutcomes (transition_work hashes ids input)
      unfolding transition_work apply_transition
      transition-Keeps input = search (frame, active-Keeps) depth 30

      pub request-Keeps : (input : ResetInput) → Keeps OfOutcomes (request_work hashes ids input)
      unfolding request_work
      request-Keeps input = search (frame, active-Keeps) depth 30

      expire-Keeps :
          (input : ApproveInput) (c : Case) (o : Override)
          → Keeps OfOutcomes (expire_override hashes ids input c o)
      unfolding expire_override
      expire-Keeps input c o = search frame depth 20

      execute-Keeps :
          (input : ApproveInput) (c : Case) (o : Override)
          → Keeps OfOutcomes (execute_override hashes ids input c o)
      unfolding execute_override
      execute-Keeps input c o = search frame depth 20

      add-Keeps :
          (input : ApproveInput) (c : Case) (o : Override)
          → Keeps OfOutcomes (add_approval hashes ids input c o)
      unfolding add_approval
      add-Keeps input c o = search (frame, execute-Keeps) depth 20

      pub approve-Keeps : (input : ApproveInput) → Keeps OfOutcomes (approve_work hashes ids input)
      unfolding approve_work
      approve-Keeps input = search (frame, active-Keeps, expire-Keeps, add-Keeps) depth 30
