-- ===== src/Operations/TrustReset.antt =====
-- packages/customer-operations/operationsStateMachine.ts: every stored trust reset override, after any
-- sequence of calls.
use contactless_airlock_lab.Prelude.{
  ◌≡◌, ◌≢◌, refl, subst, ℕ, true, false, Text, Option, none, some, List, [], ◌∷◌, ok, arith,
  text_Eq, text_eq_iff, lookup, All, All-insert, All-lookup, length, Keeps, keeps_rules, Keeps-bind,
  Keeps-modify, Keeps-guard, Keeps-guarded, Keeps-bind_with, Keeps-raise, Keeps-lift, Keeps-if,
  Keeps-gets, modify, ◌>>=◌,
}
use contactless_airlock_lab.Operations.{
  Case, Approval, Override, OverrideState, pending, executed, lapsed, EventType, Actor, Template,
  OperationsError, is_approver,
}
use contactless_airlock_lab.Operations.Machine.{
  OpenInput, TransitionInput, ResetInput, ApproveInput, opens, transits, requests_reset,
  approves_reset, Request, Response, Prior, CustomerOperations, Op, Hashes, RandomIds, scoped,
  put_case, put_override, assert_id, assert_actor, notify, must_override, append_audit, active_case,
  once, first_or_replay, replay,
}
use contactless_airlock_lab.Operations.Machine.Calls.{
  new_override, open_work, apply_transition, transition_work, request_work, expire_override,
  approve_work, open_case, transition, request_trust_reset, approve_trust_reset,
}
use contactless_airlock_lab.Operations.Replay.{call, run}
use contactless_airlock_lab.Operations.DualControl.{
  AreSeparate, IsCount, IsSound, AreSound, OfSound, add-Keeps,
}

case-Keeps : (key : Text) (c : Case) → Keeps {E = OperationsError} OfSound (modify (put_case key c))
case-Keeps key c = Keeps-modify (put_case key c) (λ s h. h)

override-Keeps :
    (key : Text) (o : Override)
    → IsSound o
    → Keeps {E = OperationsError} OfSound (modify (put_override key o))
override-Keeps key o sound =
    Keeps-modify (put_override key o)
      (λ s h. All-insert (λ (e : Text × Override). IsSound e.1) key o s.overrides (λ j _. sound) h)

id-Keeps : (id : Text) → Keeps OfSound (assert_id id)
unfolding assert_id
id-Keeps id = search keeps_rules

actor-Keeps : (tenant : Text) (actor : Actor) → Keeps OfSound (assert_actor tenant actor)
unfolding assert_actor
actor-Keeps tenant actor = search keeps_rules

override_of-Keeps : (tenant id : Text) → Keeps OfSound (must_override tenant id)
unfolding must_override
override_of-Keeps tenant id = search keeps_rules

-- The override that is read is sound, if the stored ones are.
override_of-IsSound :
    (tenant id : Text) (s : CustomerOperations) (o : Override)
    → OfSound s
    → (must_override tenant id s).0 ≡ ok o
    → IsSound o
unfolding must_override ◌>>=◌
override_of-IsSound tenant id s o h r =
    All-lookup (λ (e : Text × Override). IsSound e.1) (scoped tenant id) o s.overrides h
      (ground arith)

notify-Keeps :
    (c : Case) (template : Template) (now : ℕ) (id : Text)
    → Keeps OfSound (notify c template now id)
unfolding notify
notify-Keeps c template now id = Keeps-modify _ (λ s h. h)

fresh-IsSound :
    (input : ResetInput) (case_id override_id : Text)
    → IsSound (new_override input case_id override_id)
fresh-IsSound input case_id override_id = record {
  separate = tt;
  authorized = tt;
  count = omega arith;
}

lapsed-IsSound :
    (o : Override) → IsSound o → o.state ≡ pending → IsSound (record o { state = lapsed })
lapsed-IsSound o sound held = record {
  separate = sound.separate;
  authorized = sound.authorized;
  count = subst (λ st. IsCount st (length o.approvals)) held sound.count;
}

module _ (hashes : Hashes) where
  audit-Keeps :
      (c : Case) (type : EventType) (actor : Actor) (reason : Text) (now : ℕ) (id : Text)
      → Keeps OfSound (append_audit hashes c type actor reason now id)
  unfolding append_audit
  audit-Keeps c type actor reason now id =
      Keeps-bind _ _ (Keeps-guard _ _) (λ _. Keeps-modify _ (λ s h. h))

  ruleset sound_rules = (
    keeps_rules, case-Keeps, override-Keeps, id-Keeps, actor-Keeps, override_of-Keeps, notify-Keeps,
    audit-Keeps, fresh-IsSound,
  )

  active-Keeps :
      (tenant case_id : Text) (now : ℕ) (id : Text)
      → Keeps OfSound (active_case hashes tenant case_id now id)
  unfolding active_case
  active-Keeps tenant case_id now id = search sound_rules depth 20

  module _ (ids : RandomIds) where
    open-Keeps : (input : OpenInput) → Keeps OfSound (open_work hashes ids input)
    unfolding open_work
    open-Keeps input = search sound_rules depth 30

    transition-Keeps : (input : TransitionInput) → Keeps OfSound (transition_work hashes ids input)
    unfolding transition_work apply_transition
    transition-Keeps input = search (sound_rules, active-Keeps) depth 30

    request-Keeps : (input : ResetInput) → Keeps OfSound (request_work hashes ids input)
    unfolding request_work
    request-Keeps input = search (sound_rules, active-Keeps) depth 30

    expire-Keeps :
        (input : ApproveInput) (c : Case) (o : Override)
        → IsSound o
        → o.state ≡ pending
        → Keeps OfSound (expire_override hashes ids input c o)
    unfolding expire_override
    expire-Keeps input c o sound held =
        Keeps-bind _ _ (override-Keeps _ _ (lapsed-IsSound o sound held))
          λ _. Keeps-bind _ _ (audit-Keeps _ _ _ _ _ _) λ _. Keeps-raise _

    is_pending : (st : OverrideState) → elim st [ pending ↦ true | _ ↦ false ] ≡ true → st ≡ pending
    is_pending st h = ground arith

    approve-Keeps : (input : ApproveInput) → Keeps OfSound (approve_work hashes ids input)
    unfolding approve_work
    approve-Keeps input = Keeps-bind _ _ (actor-Keeps _ _) λ _. Keeps-guarded _ _ _ λ reason.
        Keeps-guarded _ _ _ λ role.
          Keeps-bind_with IsSound _ _ (override_of-Keeps _ _) (override_of-IsSound _ _) λ o sound.
            Keeps-bind _ _ (active-Keeps _ _ _ _) λ c. Keeps-guarded _ _ _ λ held.
              Keeps-if _ _ _ (expire-Keeps input c o sound (is_pending o.state held))
                (add-Keeps hashes ids input c o sound (is_pending o.state held) reason role)

    first-Keeps :
        (key h : Text) (prior : Option Prior) (work : Op Response)
        → Keeps OfSound work
        → Keeps OfSound (first_or_replay hashes key h prior work)
    unfolding first_or_replay replay
    first-Keeps key h none work k = record { at = k.at }
    first-Keeps key h (some prior) work k = record {
      at = (Keeps-bind _ _ (Keeps-guard _ _) (λ _. Keeps-lift _)).at;
    }

    once-Keeps :
        (r : Request) (work : Op Response) → Keeps OfSound work → Keeps OfSound (once hashes r work)
    unfolding once
    once-Keeps r work k = Keeps-bind _ _ (id-Keeps _) λ _.
        Keeps-bind _ _ (id-Keeps _)
          λ _. Keeps-bind _ _ (Keeps-gets _) λ prior. first-Keeps _ _ prior work k

    call-Keeps : (r : Request) → Keeps OfSound (call hashes ids r)
    unfolding open_case transition request_trust_reset approve_trust_reset
    call-Keeps (opens input) = once-Keeps (opens input) _ (open-Keeps input)
    call-Keeps (transits input) = once-Keeps (transits input) _ (transition-Keeps input)
    call-Keeps (requests_reset input) = once-Keeps (requests_reset input) _ (request-Keeps input)
    call-Keeps (approves_reset input) = once-Keeps (approves_reset input) _ (approve-Keeps input)

  -- If, of every stored override, no two approvals are by one actor, each is by an approver's
  -- role, and there are at most one while it is pending or expired and two when it is executed,
  -- that is so after whatever requests.
  pub run-AreSound :
      (rs : List (RandomIds × Request)) (s : CustomerOperations)
      → AreSound s.overrides
      → AreSound (run hashes rs s).overrides
  run-AreSound [] s h = h
  run-AreSound ((ids, r) ∷ rs) s h =
      run-AreSound rs (call hashes ids r s).1 ((call-Keeps ids r).at s h)

-- new CustomerOperationsStateMachine()
abbrev pub no_operations : CustomerOperations
no_operations = record { cases = []; overrides = []; audit = []; intents = []; idempotency = [] }

-- Two approvals of distinct actors, each in an approver's role.
pub record ApprovedByTwo (o : Override) : Type 0 where
  pub first : Approval
  pub second : Approval
  pub both : o.approvals ≡ first ∷ second ∷ []
  pub distinct : first.actor_id ≢ second.actor_id
  pub first_role : is_approver first.role ≡ true
  pub second_role : is_approver second.role ≡ true

two_approvals :
    (o : Override) (xs : List Approval)
    → o.approvals ≡ xs
    → AreSeparate xs
    → All (λ (a : Approval). is_approver a.role ≡ true) xs
    → length xs ≡ 2
    → ApprovedByTwo o
two_approvals o [] e d r n = absurd (omega arith)
two_approvals o (a ∷ []) e d r n = absurd (omega arith)
two_approvals o (a ∷ b ∷ c ∷ xs) e d r n = absurd (omega arith)
two_approvals o (a ∷ b ∷ []) e d r n = record {
  first = a;
  second = b;
  both = e;
  distinct = λ same. ground (arith, text_eq_iff b.actor_id a.actor_id);
  first_role = r.0;
  second_role = r.1.0;
}

-- Whatever calls a new state machine answers, a trust reset override that it stores as executed
-- has two approvals, of two distinct actors, each in a role that may approve.
pub executed_by_two :
    (hashes : Hashes) (rs : List (RandomIds × Request)) (key : Text) (o : Override)
    → lookup key (run hashes rs no_operations).overrides ≡ some o
    → o.state ≡ executed
    → ApprovedByTwo o
executed_by_two hashes rs key o found done =
    let sound =
      All-lookup (λ (e : Text × Override). IsSound e.1) key o
        (run hashes rs no_operations).overrides (run-AreSound hashes rs no_operations tt) found in
    two_approvals o o.approvals refl sound.separate sound.authorized
      (subst (λ st. IsCount st (length o.approvals)) done sound.count)
