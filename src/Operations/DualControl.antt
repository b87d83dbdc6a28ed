-- ===== src/Operations/DualControl.antt =====
-- packages/customer-operations/operationsStateMachine.ts: the approvals of a destructive trust reset.
use contactless_airlock_lab.Prelude.{
  ◌≡◌, refl, sym, subst, ℕ, ◌≤◌, Bool, true, false, ◌||◌, Text, some, List, [], ◌∷◌, ◌++◌, Map, ok,
  arith, text_Eq, text_eq_iff, insert, insert-insert, All, All-insert, Bool-cases, ◌⊎◌, inl, inr,
  ◌==◌, any, length, length-append, nat_eq, if◌then◌else◌, Keeps, ◌>>=◌,
}
use contactless_airlock_lab.Operations.{
  Case, Approval, Override, OverrideState, pending, executed, lapsed, withdrawn, EventType, Actor,
  is_approver, is_reason,
}
use contactless_airlock_lab.Operations.Machine.{
  ApproveInput, CustomerOperations, Hashes, RandomIds, scoped, notify, append_audit,
}
use contactless_airlock_lab.Operations.Machine.Calls.{
  is_affected_device, new_approval, execute_override, add_approval,
}

abbrev by : Text → Approval → Bool
by actor a = a.actor_id == actor

-- No two approvals are of one actor.
abbrev pub AreSeparate : List Approval → Type 0
AreSeparate [] = Unit
AreSeparate (a ∷ rest) = (any (by a.actor_id) rest ≡ false) × AreSeparate rest

-- The number of approvals that a state allows; no method withdraws an override.
abbrev pub IsCount : OverrideState → ℕ → Type 0
IsCount pending n = n ≤ 1
IsCount executed n = n ≡ 2
IsCount lapsed n = n ≤ 1
IsCount withdrawn n = ⊥

pub record IsSound (o : Override) : Type 0 where
  pub separate : AreSeparate o.approvals
  pub authorized : All (λ (a : Approval). is_approver a.role ≡ true) o.approvals
  pub count : IsCount o.state (length o.approvals)

abbrev pub AreSound : Map Text Override → Type 0
AreSound m = All (λ (e : Text × Override). IsSound e.1) m

abbrev pub OfSound : CustomerOperations → Type 0
OfSound s = AreSound s.overrides

any-append :
    (actor : Text) (xs : List Approval) (a : Approval)
    → any (by actor) (xs ++ a ∷ []) ≡ (any (by actor) xs || by actor a)
any-append actor [] a = ground arith
any-append actor (x ∷ xs) a = ground (arith, any-append actor xs a)

separate-append :
    (xs : List Approval) (a : Approval)
    → AreSeparate xs
    → any (by a.actor_id) xs ≡ false
    → AreSeparate (xs ++ a ∷ [])
separate-append [] a d n = (refl, tt)
separate-append (x ∷ xs) a d n = (
  ground (
    arith,
    any-append x.actor_id xs a,
    text_eq_iff x.actor_id a.actor_id,
    text_eq_iff a.actor_id x.actor_id,
    d.0,
  ),
  separate-append xs a d.1 (ground arith),
)

authorized-append :
    (xs : List Approval) (a : Approval)
    → All (λ (b : Approval). is_approver b.role ≡ true) xs
    → is_approver a.role ≡ true
    → All (λ (b : Approval). is_approver b.role ≡ true) (xs ++ a ∷ [])
authorized-append [] a h r = (r, tt)
authorized-append (x ∷ xs) a h r = (h.0, authorized-append xs a h.1 r)

module _ (hashes : Hashes) (ids : RandomIds) where
  audited_overrides :
      (c : Case) (type : EventType) (actor : Actor) (reason : Text) (now : ℕ) (id : Text)
      (s : CustomerOperations)
      → (append_audit hashes c type actor reason now id s).1.overrides ≡ s.overrides
  unfolding append_audit ◌>>=◌
  audited_overrides c type actor reason now id s = ground arith

  audited_ok :
      (c : Case) (type : EventType) (actor : Actor) (reason : Text) (now : ℕ) (id : Text)
      (s : CustomerOperations)
      → is_reason reason ≡ true
      → (append_audit hashes c type actor reason now id s).0 ≡ ok tt
  unfolding append_audit ◌>>=◌
  audited_ok c type actor reason now id s h = ground arith

  executed_overrides :
      (input : ApproveInput) (c : Case) (o : Override) (s : CustomerOperations)
      → (execute_override hashes ids input c o s).1.overrides
        ≡ insert
            (scoped input.tenant_id input.override_id)
            (record o { state = executed; executed_at = some input.now })
            s.overrides
  unfolding execute_override append_audit notify ◌>>=◌
  executed_overrides input c o s = ground arith

  abbrev with_approval : ApproveInput → Override → Override
  with_approval input o = record o { approvals = o.approvals ++ new_approval input ∷ [] }

  -- The overrides that an approval leaves.
  added_overrides :
      (input : ApproveInput) (c : Case) (o : Override) (s : CustomerOperations)
      → is_reason input.reason ≡ true
      → any (by input.actor.actor_id) o.approvals ≡ false
      → is_affected_device c.subject_device_id input.actor.device_id ≡ false
      → (add_approval hashes ids input c o s).1.overrides
        ≡ insert
            (scoped input.tenant_id input.override_id)
            (if nat_eq (length (with_approval input o).approvals) 2
              then record (with_approval input o) { state = executed; executed_at = some input.now }
              else with_approval input o)
            s.overrides
  unfolding add_approval execute_override append_audit notify ◌>>=◌
  added_overrides input c o s reason new unaffected =
      let key = scoped input.tenant_id input.override_id in
      let more = with_approval input o in
      ground (
        arith,
        insert-insert key (record more { state = executed; executed_at = some input.now }) more
            s.overrides,
      )

  refused_approval :
      (input : ApproveInput) (c : Case) (o : Override) (s : CustomerOperations)
      → (any (by input.actor.actor_id) o.approvals ≡ true)
        ⊎ (is_affected_device c.subject_device_id input.actor.device_id ≡ true)
      → (add_approval hashes ids input c o s).1 ≡ s
  unfolding add_approval ◌>>=◌
  refused_approval input c o s h = ground arith

  approved-IsSound :
      (input : ApproveInput) (o : Override)
      → IsSound o
      → o.state ≡ pending
      → is_approver input.actor.role ≡ true
      → any (by input.actor.actor_id) o.approvals ≡ false
      → IsSound (
          if nat_eq (length (with_approval input o).approvals) 2
          then record (with_approval input o) { state = executed; executed_at = some input.now }
          else with_approval input o)
  approved-IsSound input o sound held role new =
      let a = new_approval input in
      let separate = separate-append o.approvals a sound.separate new in
      let authorized = authorized-append o.approvals a sound.authorized role in
      let few : length o.approvals ≤ 1 =
        subst (λ st. IsCount st (length o.approvals)) held sound.count in
      elim (Bool-cases (nat_eq (length (with_approval input o).approvals) 2)) [
        | inl two ↦
            rw two (record { separate = separate; authorized = authorized; count = ground arith })
        | inr one ↦ rw one (record {
          separate = separate;
          authorized = authorized;
          count =
              subst (λ st. IsCount st (length (o.approvals ++ a ∷ []))) (sym held)
                (ground (arith, length-append o.approvals (a ∷ [])));
        })
      ]

  pub add-Keeps :
      (input : ApproveInput) (c : Case) (o : Override)
      → IsSound o
      → o.state ≡ pending
      → is_reason input.reason ≡ true
      → is_approver input.actor.role ≡ true
      → Keeps OfSound (add_approval hashes ids input c o)
  add-Keeps input c o sound held reason role = record {
    at = λ s h. elim (Bool-cases (any (by input.actor.actor_id) o.approvals)) [
      | inl dup ↦ rw (refused_approval input c o s (inl dup)) h
      | inr new ↦ elim (Bool-cases (is_affected_device c.subject_device_id input.actor.device_id)) [
        | inl affected ↦ rw (refused_approval input c o s (inr affected)) h
        | inr unaffected ↦ rw (added_overrides input c o s reason new unaffected) (
            All-insert (λ (e : Text × Override). IsSound e.1)
              (scoped input.tenant_id input.override_id) _ s.overrides
              (λ j _. approved-IsSound input o sound held role new) h)
      ]
    ];
  }
