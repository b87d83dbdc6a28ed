-- ===== src/Operations/Moves.antt =====
-- packages/customer-operations/operationsStateMachine.ts: what a transition of a case requires, and the
-- keys of the cases.
use contactless_airlock_lab.Prelude.{
  ◌≡◌, ◌≢◌, refl, ap, ◌∙◌, ℕ, ◌<◌, Bool, true, false, Text, some, [], ◌∷◌, ◌++◌, Map, ok, arith,
  text_Eq, text_eq_iff, Result-cases, lookup, insert, lookup-insert_self, any, length,
  length-append, matches_id, inl, inr, ◌==◌, ◌>>=◌,
}
use contactless_airlock_lab.Operations.{
  CaseType, device_loss, account_recovery, false_decline_review, fraudulent_approval_dispute,
  compromise_response, CaseState, opened, contained, proof_verified, under_review, payment_frozen,
  eradicated, upheld, overturned, remediated, resolved, cancelled, CaseState-discrete,
  case_state_Eq, role_Eq, Case, transitions, transition_roles, is_terminal,
}
use contactless_airlock_lab.Operations.Machine.{
  OpenInput, TransitionInput, CustomerOperations, Hashes, RandomIds, Response, scoped, assert_id,
  assert_actor, append_audit, active_case, notify,
}
use contactless_airlock_lab.Operations.Machine.Calls.{
  is_dual_control, moved, apply_transition, transition_work, get_case, new_case, open_work,
}

abbrev pub allows : CaseType → CaseState → CaseState → Bool
allows type current next = any (λ s. s == next) (transitions type current)

-- The steps of a case that one actor takes alone, written out.
pub data Steps : CaseType → CaseState → CaseState → Type 0 where
  lost_device_contained : Steps device_loss opened contained
  lost_device_cancelled : Steps device_loss opened cancelled
  lost_device_resolved : Steps device_loss contained resolved
  recovery_proved : Steps account_recovery opened proof_verified
  recovery_cancelled : Steps account_recovery opened cancelled
  review_begun : Steps false_decline_review opened under_review
  review_cancelled : Steps false_decline_review opened cancelled
  review_upheld : Steps false_decline_review under_review upheld
  review_overturned : Steps false_decline_review under_review overturned
  dispute_frozen : Steps fraudulent_approval_dispute opened payment_frozen
  dispute_cancelled : Steps fraudulent_approval_dispute opened cancelled
  dispute_reviewed : Steps fraudulent_approval_dispute payment_frozen under_review
  dispute_upheld : Steps fraudulent_approval_dispute under_review upheld
  dispute_remediated : Steps fraudulent_approval_dispute under_review remediated
  compromise_contained : Steps compromise_response opened contained
  compromise_eradicated : Steps compromise_response contained eradicated
  compromise_resolved : Steps compromise_response eradicated resolved

allowed-Steps :
    (type : CaseType) (current next : CaseState)
    → allows type current next ≡ true
    → is_dual_control next current ≡ false
    → Steps type current next
unfolding transitions CaseState-discrete
allowed-Steps device_loss opened contained h d = lost_device_contained
allowed-Steps device_loss opened cancelled h d = lost_device_cancelled
allowed-Steps device_loss contained resolved h d = lost_device_resolved
allowed-Steps account_recovery opened proof_verified h d = recovery_proved
allowed-Steps account_recovery opened cancelled h d = recovery_cancelled
allowed-Steps false_decline_review opened under_review h d = review_begun
allowed-Steps false_decline_review opened cancelled h d = review_cancelled
allowed-Steps false_decline_review under_review upheld h d = review_upheld
allowed-Steps false_decline_review under_review overturned h d = review_overturned
allowed-Steps fraudulent_approval_dispute opened payment_frozen h d = dispute_frozen
allowed-Steps fraudulent_approval_dispute opened cancelled h d = dispute_cancelled
allowed-Steps fraudulent_approval_dispute payment_frozen under_review h d = dispute_reviewed
allowed-Steps fraudulent_approval_dispute under_review upheld h d = dispute_upheld
allowed-Steps fraudulent_approval_dispute under_review remediated h d = dispute_remediated
allowed-Steps compromise_response opened contained h d = compromise_contained
allowed-Steps compromise_response contained eradicated h d = compromise_eradicated
allowed-Steps compromise_response eradicated resolved h d = compromise_resolved
allowed-Steps _ _ _ h d = absurd (ground arith)

-- What a transition that returned establishes.
pub record Moved (input : TransitionInput) (s s' : CustomerOperations) : Type 0 where
  pub before : Case
  pub found : lookup (scoped input.tenant_id input.case_id) s.cases ≡ some before
  pub live : is_terminal before.state ≡ false
  pub unexpired : input.now < before.expires_at
  pub allowed : Steps before.case_type before.state input.next_state
  pub authorized : any (λ r. r == input.actor.role) (transition_roles input.next_state) ≡ true
  pub single : is_dual_control input.next_state before.state ≡ false
  pub own_tenant : input.actor.tenant_id ≡ input.tenant_id
  pub after :
      lookup (scoped input.tenant_id input.case_id) s'.cases
      ≡ some (moved input.next_state input.now before)

module _ (hashes : Hashes) (ids : RandomIds) where
  active_found :
      (tenant case_id : Text) (now : ℕ) (id : Text) (s : CustomerOperations) (c : Case)
      → (active_case hashes tenant case_id now id s).0 ≡ ok c
      → (lookup (scoped tenant case_id) s.cases ≡ some c)
        × (is_terminal c.state ≡ false)
        × (now < c.expires_at)
        × ((active_case hashes tenant case_id now id s).1 ≡ s)
  unfolding active_case append_audit ◌>>=◌
  active_found tenant case_id now id s c h = ground arith

  applied :
      (input : TransitionInput) (v : Case) (r : Response) (s s' : CustomerOperations)
      → apply_transition hashes ids input v s ≡ (ok r, s')
      → (is_dual_control input.next_state v.state ≡ false)
        × (allows v.case_type v.state input.next_state ≡ true)
        × (any (λ x. x == input.actor.role) (transition_roles input.next_state) ≡ true)
        × (s'.cases
            ≡ insert
                (scoped input.tenant_id input.case_id)
                (moved input.next_state input.now v)
                s.cases)
  unfolding apply_transition append_audit notify ◌>>=◌
  applied input v r s s' h = (ground arith, ground arith, ground arith, ground arith)

  -- The case that a returning transition found, and its step from there.
  stages :
      (input : TransitionInput) (r : Response) (s s' : CustomerOperations)
      → transition_work hashes ids input s ≡ (ok r, s')
      → (input.actor.tenant_id == input.tenant_id ≡ true)
        × ((v : Case) × ((active_case hashes input.tenant_id input.case_id input.now ids.first_event
                s).0
              ≡ ok v)
            × (apply_transition hashes ids input v
                  (active_case hashes input.tenant_id input.case_id input.now ids.first_event s).1
                ≡ (ok r, s')))
  unfolding transition_work assert_actor assert_id ◌>>=◌
  stages input r s s' h =
      let active = active_case hashes input.tenant_id input.case_id input.now ids.first_event s in
      (
        ground arith,
        elim (Result-cases active.0) [
          | inr (e, refused) ↦ absurd (ground arith)
          | inl (v, found) ↦ (v, found, ground arith)
        ],
      )

  -- A transition that returns moves a stored case that is neither terminal nor expired, with an
  -- actor of the tenant that is given, to the next state: from its state to that one there is one
  -- of the `Steps` of its type, the actor's role may enter it, and it is no step of the dual
  -- control. The case is stored with that state and the time of the call.
  pub transition-Moved :
      (input : TransitionInput) (r : Response) (s s' : CustomerOperations)
      → transition_work hashes ids input s ≡ (ok r, s')
      → Moved input s s'
  transition-Moved input r s s' h =
      let key = scoped input.tenant_id input.case_id in
      let u = (active_case hashes input.tenant_id input.case_id input.now ids.first_event s).1 in
      let t = stages input r s s' h in
      let v = t.1.0 in
      let a = active_found input.tenant_id input.case_id input.now ids.first_event s v t.1.1 in
      let b = applied input v r u s' t.1.2 in
      record {
        before = v;
        found = a.0;
        live = a.1;
        unexpired = a.2;
        allowed = allowed-Steps v.case_type v.state input.next_state b.1 b.0;
        authorized = b.2;
        single = b.0;
        own_tenant = (text_eq_iff input.actor.tenant_id input.tenant_id).0 t.0;
        after =
            ap (λ (m : Map Text Case). lookup key m) b.3
            ∙ lookup-insert_self key (moved input.next_state input.now v) u.cases;
      }

scoped_collide : (a b c : Text) → scoped (a ++ b':' ∷ b) c ≡ scoped a (b ++ b':' ∷ c)
scoped_collide [] b c = refl
scoped_collide (x ∷ a) b c = ap (λ (t : Text). x ∷ t) (scoped_collide a b c)

module _ (hashes : Hashes) (ids : RandomIds) where
  -- What opening a case that has an id of its own stores.
  opened_cases :
      (input : OpenInput) (id : Text) (r : Response) (s s' : CustomerOperations)
      → input.case_id ≡ some id
      → open_work hashes ids input s ≡ (ok r, s')
      → s'.cases ≡ insert (scoped input.tenant_id id) (new_case input id) s.cases
  unfolding open_work assert_actor assert_id append_audit notify ◌>>=◌
  opened_cases input id r s s' own h = ground (arith, own, h)

  longer : (a : Text) (c : ℕ) (b : Text) → a ≢ a ++ c ∷ b
  longer a c b e = absurd (omega (arith, ap (λ (t : Text). length t) e, length-append a (c ∷ b)))

  -- After a tenant `a` opened a case with the id `b:c`, `getCase` returns that case, which has the
  -- tenant `a` and its subject reference, for the tenant `a:b` and the id `c`, if those two are
  -- valid ids; `a:b` is not the tenant of the case.
  pub case_of_another_tenant :
      (b c : Text) (input : OpenInput) (r : Response) (s s' : CustomerOperations)
      → input.case_id ≡ some (b ++ b':' ∷ c)
      → matches_id (input.tenant_id ++ b':' ∷ b) ≡ true
      → matches_id c ≡ true
      → open_work hashes ids input s ≡ (ok r, s')
      → (value : Case) × (get_case (input.tenant_id ++ b':' ∷ b) c s' ≡ (ok value, s'))
        × (value.tenant_id ≡ input.tenant_id)
        × (value.tenant_id ≢ input.tenant_id ++ b':' ∷ b)
        × (value.subject_ref ≡ input.subject_ref)
  unfolding get_case assert_id ◌>>=◌
  case_of_another_tenant b c input r s s' own other valid h =
      let a = input.tenant_id in
      let id = b ++ b':' ∷ c in
      let value = new_case input id in
      let found : lookup (scoped a id) s'.cases ≡ some value =
        ap (λ (m : Map Text Case). lookup (scoped a id) m) (opened_cases input id r s s' own h)
        ∙ lookup-insert_self (scoped a id) value s.cases in
      (
        value,
        ground (
          arith,
          other,
          valid,
          found,
          ap (λ (t : Text). lookup t s'.cases) (scoped_collide a b c),
        ),
        refl,
        longer a b':' b,
        refl,
      )
