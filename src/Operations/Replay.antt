-- ===== src/Operations/Replay.antt =====
-- packages/customer-operations/operationsStateMachine.ts: `#once`, and the answer to a request that comes
-- again.
use contactless_airlock_lab.Prelude.{
  ◌≡◌, refl, ap, ◌∙◌, Bool, true, false, ◌&&◌, Text, none, some, List, [], ◌∷◌, Map, Result, err,
  arith, text_Eq, text_eq_iff, lookup, lookup-insert, lookup-insert_self, Bool-cases, Option-cases,
  inl, inr, eq_refl, matches_id, Keeps, ◌>>=◌,
}
use contactless_airlock_lab.Operations.{OperationsError, invalid_id}
use contactless_airlock_lab.Operations.Machine.{
  Request, opens, transits, requests_reset, approves_reset, Response, Prior, CustomerOperations, Op,
  Hashes, RandomIds, tenant_of, idempotency_key_of, idempotency_key, assert_id, keep_outcome,
  replay, first_or_replay, once,
}
use contactless_airlock_lab.Operations.Machine.Calls.{
  open_work, transition_work, request_work, approve_work, open_case, transition,
  request_trust_reset, approve_trust_reset,
}
use contactless_airlock_lab.Operations.Frames.{
  OfOutcomes, open-Keeps, transition-Keeps, request-Keeps, approve-Keeps,
}

-- What a request does when it is new.
abbrev pub work_of : Hashes → RandomIds → Request → Op Response
work_of hashes ids (opens input) = open_work hashes ids input
work_of hashes ids (transits input) = transition_work hashes ids input
work_of hashes ids (requests_reset input) = request_work hashes ids input
work_of hashes ids (approves_reset input) = approve_work hashes ids input

-- The method of a request.
abbrev pub call : Hashes → RandomIds → Request → Op Response
call hashes ids (opens input) = open_case hashes ids input
call hashes ids (transits input) = transition hashes ids input
call hashes ids (requests_reset input) = request_trust_reset hashes ids input
call hashes ids (approves_reset input) = approve_trust_reset hashes ids input

abbrev pub run : Hashes → List (RandomIds × Request) → CustomerOperations → CustomerOperations
run hashes [] s = s
run hashes ((ids, r) ∷ rs) s = run hashes rs (call hashes ids r s).1

abbrev key_of : Request → Text
key_of r = idempotency_key (tenant_of r) (idempotency_key_of r)

abbrev has_ids : Request → Bool
has_ids r = matches_id (tenant_of r) && matches_id (idempotency_key_of r)

module _ (hashes : Hashes) where
  once_refused :
      (r : Request) (work : Op Response) (s : CustomerOperations)
      → has_ids r ≡ false
      → once hashes r work s ≡ (err invalid_id, s)
  unfolding once assert_id ◌>>=◌
  once_refused r work s h = ground arith

  once_first :
      (r : Request) (work : Op Response) (s : CustomerOperations)
      → has_ids r ≡ true
      → lookup (key_of r) s.idempotency ≡ none
      → once hashes r work s ≡ keep_outcome hashes (key_of r) (hashes.request r) (work s)
  unfolding once first_or_replay assert_id ◌>>=◌
  once_first r work s h n = ground arith

  once_again :
      (r : Request) (work : Op Response) (prior : Prior) (s : CustomerOperations)
      → has_ids r ≡ true
      → lookup (key_of r) s.idempotency ≡ some prior
      → once hashes r work s ≡ replay hashes (hashes.request r) prior s
  unfolding once first_or_replay assert_id ◌>>=◌
  once_again r work prior s h n = ground arith

  call-once :
      (ids : RandomIds) (r : Request) (s : CustomerOperations)
      → call hashes ids r s ≡ once hashes r (work_of hashes ids r) s
  unfolding open_case transition request_trust_reset approve_trust_reset
  call-once ids (opens input) s = refl
  call-once ids (transits input) s = refl
  call-once ids (requests_reset input) s = refl
  call-once ids (approves_reset input) s = refl

  work-Keeps :
      (Q : Map Text Prior → Type 0) (ids : RandomIds) (r : Request)
      → Keeps (OfOutcomes Q) (work_of hashes ids r)
  work-Keeps Q ids (opens input) = open-Keeps Q hashes ids input
  work-Keeps Q ids (transits input) = transition-Keeps Q hashes ids input
  work-Keeps Q ids (requests_reset input) = request-Keeps Q hashes ids input
  work-Keeps Q ids (approves_reset input) = approve-Keeps Q hashes ids input

  replay_same : (h : Text) (p : Prior) (s : CustomerOperations) → (replay hashes h p s).1 ≡ s
  unfolding replay ◌>>=◌
  replay_same h p s = ground arith

  replay_anywhere :
      (h : Text) (p : Prior) (s u : CustomerOperations)
      → replay hashes h p u ≡ ((replay hashes h p s).0, u)
  unfolding replay ◌>>=◌
  replay_anywhere h p s u = ground arith

  -- The work of a request keeps the outcomes, and an outcome once kept stays.
  kept_by_work :
      (ids : RandomIds) (r : Request) (s : CustomerOperations)
      → (work_of hashes ids r s).1.idempotency ≡ s.idempotency
  kept_by_work ids r s = (work-Keeps (λ m. m ≡ s.idempotency) ids r).at s refl

  call-keeps_outcome :
      (ids : RandomIds) (r : Request) (key : Text) (p : Prior) (s : CustomerOperations)
      → lookup key s.idempotency ≡ some p
      → lookup key (call hashes ids r s).1.idempotency ≡ some p
  call-keeps_outcome ids r key p s h = rw (call-once ids r s) (elim (Bool-cases (has_ids r)) [
    | inr bad ↦ rw (once_refused r (work_of hashes ids r) s bad) h
    | inl good ↦ elim (Option-cases (lookup (key_of r) s.idempotency)) [
      | inr (q, found) ↦
          rw
            (once_again r (work_of hashes ids r) q s good found, replay_same (hashes.request r) q s)
            h
      | inl new ↦
          let q : Prior = record {
            request_hash = hashes.request r;
            outcome = (work_of hashes ids r s).0;
          } in
          rw (once_first r (work_of hashes ids r) s good new, kept_by_work ids r s)
            (ground
              (arith, lookup-insert (key_of r) key q s.idempotency, text_eq_iff (key_of r) key))
    ]
  ])

  run-keeps_outcome :
      (rs : List (RandomIds × Request)) (key : Text) (p : Prior) (s : CustomerOperations)
      → lookup key s.idempotency ≡ some p
      → lookup key (run hashes rs s).idempotency ≡ some p
  run-keeps_outcome [] key p s h = h
  run-keeps_outcome ((ids, r) ∷ rs) key p s h =
      run-keeps_outcome rs key p (call hashes ids r s).1 (call-keeps_outcome ids r key p s h)

  -- What a call leaves under its key.
  record Answered (r : Request) (a : Result OperationsError Response) (s : CustomerOperations)
      : Type 0 where
    pub prior : Prior
    pub kept : lookup (key_of r) s.idempotency ≡ some prior
    pub answer : (replay hashes (hashes.request r) prior s).0 ≡ a

  call-Answered :
      (ids : RandomIds) (r : Request) (s : CustomerOperations)
      → has_ids r ≡ true
      → Answered r (call hashes ids r s).0 (call hashes ids r s).1
  unfolding replay ◌>>=◌
  call-Answered ids r s good =
      rw (call-once ids r s) (elim (Option-cases (lookup (key_of r) s.idempotency)) [
        | inr (q, found) ↦
            rw
              (
                once_again r (work_of hashes ids r) q s good found,
                replay_same (hashes.request r) q s,
              )
              (record { prior = q; kept = found; answer = refl })
        | inl new ↦
            let w = work_of hashes ids r s in
            let q : Prior = record { request_hash = hashes.request r; outcome = w.0 } in
            rw (once_first r (work_of hashes ids r) s good new) (record {
              prior = q;
              kept = lookup-insert_self (key_of r) q w.1.idempotency;
              answer = ground (arith, eq_refl (hashes.request r));
            })
      ])

  -- A request that comes again, after whatever requests, gets the answer it got before, an error
  -- included, and the second call changes nothing.
  pub call_again :
      (ids again : RandomIds) (r : Request) (rs : List (RandomIds × Request))
      (s : CustomerOperations)
      → let later = run hashes rs (call hashes ids r s).1 in
        call hashes again r later ≡ ((call hashes ids r s).0, later)
  call_again ids again r rs s =
      let later = run hashes rs (call hashes ids r s).1 in
      elim (Bool-cases (has_ids r)) [
        | inr bad ↦
            rw
              (
                call-once again r later,
                call-once ids r s,
                once_refused r (work_of hashes ids r) s bad,
              )
              (once_refused r (work_of hashes again r) _ bad)
        | inl good ↦
            let a = call-Answered ids r s good in
            let kept = run-keeps_outcome rs (key_of r) a.prior (call hashes ids r s).1 a.kept in
            call-once again r later
            ∙ once_again r (work_of hashes again r) a.prior later good kept
            ∙ replay_anywhere (hashes.request r) a.prior (call hashes ids r s).1 later
            ∙ ap (λ (x : Result OperationsError Response). (x, later)) a.answer
      ]
