-- ===== src/Challenges/OneUse.antt =====
-- packages/state-machine/challengeStore.ts: sequences of calls, and the confirmations among them.
use contactless_airlock_lab.Prelude.{
  ℕ, suc, ◌≤◌, ◌≡◌, ◌≢◌, ◌⊎◌, inl, inr, refl, Bool, true, false, some, List, [], ◌∷◌, Text, ◌==◌,
  text_Eq, text_eq_iff, if◌then◌else◌, lookup, Result, ok, err, ◌&&◌, arith, All, Bool-cases,
  lookup-insert_self, ◌∙◌,
}
use contactless_airlock_lab.Protocol.{SignedApproval, ChallengeRecord, Error}
use contactless_airlock_lab.Crypto.{Crypto}
use contactless_airlock_lab.Challenges.{
  ChallengeStore, CreateChallengeInput, is_created, create, consume, cancel,
}
use contactless_airlock_lab.Challenges.Consumption.{
  consume_terminal, consume_other, create_other, cancel_other, cancel_terminal, consume_inv,
}

-- A call of a method that changes the store.
pub data Call : Type 0 where
  creates : CreateChallengeInput → Text → ℕ → Call
  consumes : SignedApproval → Text → ℕ → Text → Call
  cancels : Text → ℕ → Call

-- A call, for its effect: an error is caught by the caller.
abbrev pub after : Crypto → Call → ChallengeStore → ChallengeStore
after crypto (creates input id now) s = (create input id now s).1
after crypto (consumes approval key now algorithm) s =
    (consume crypto approval key now algorithm s).1
after crypto (cancels id now) s = (cancel id now s).1

abbrev pub run : Crypto → List Call → ChallengeStore → ChallengeStore
run crypto [] s = s
run crypto (c ∷ cs) s = run crypto cs (after crypto c s)

-- The random id of a new challenge is none that is in use.
abbrev pub IsOther : Text → Call → Type 0
IsOther id (creates input new_id now) = new_id ≢ id
IsOther id _ = Unit

abbrev is_ok : {A : Type 0} → Result Error A → Bool
is_ok (ok a) = true
is_ok (err e) = false

-- Does this call confirm the challenge?
abbrev pub confirms : Crypto → Text → Call → ChallengeStore → Bool
confirms crypto id (consumes approval key now algorithm) s =
    (approval.binding.challenge_id == id) && is_ok (consume crypto approval key now algorithm s).0
confirms crypto id _ s = false

abbrev pub confirmations : Crypto → Text → List Call → ChallengeStore → ℕ
confirmations crypto id [] s = 0
confirmations crypto id (c ∷ cs) s =
    let rest = confirmations crypto id cs (after crypto c s) in
    if confirms crypto id c s then suc rest else rest

and_false : (b : Bool) → (b && false) ≡ false
and_false b = ground arith

module _ (crypto : Crypto) (id : Text) where
  -- A call on this challenge, or on another.
  same_or_other : (j : Text) → (j ≡ id) ⊎ (j ≢ id)
  same_or_other j = elim (Bool-cases (j == id)) [
    | inl same ↦ inl ((text_eq_iff j id).0 same)
    | inr other ↦ inr (λ e. cc (other, (text_eq_iff j id).1 e))
  ]

  terminal-consume :
      (approval : SignedApproval) (key : Text) (now : ℕ) (algorithm : Text) (s : ChallengeStore)
      (r : ChallengeRecord)
      → lookup id s ≡ some r
      → is_created r.status ≡ false
      → lookup id (consume crypto approval key now algorithm s).1 ≡ some r
  terminal-consume approval key now algorithm s r h t =
      elim (same_or_other approval.binding.challenge_id) [
        | inl same ↦ rw (consume_terminal crypto approval key now algorithm s r (rw same h) t) h
        | inr other ↦ consume_other crypto approval key now algorithm s id other ∙ h
      ]

  terminal-cancel :
      (j : Text) (now : ℕ) (s : ChallengeStore) (r : ChallengeRecord)
      → lookup id s ≡ some r
      → is_created r.status ≡ false
      → lookup id (cancel j now s).1 ≡ some r
  terminal-cancel j now s r h t = elim (same_or_other j) [
    | inl same ↦ rw (cancel_terminal j now s r (rw same h) t) h
    | inr other ↦ cancel_other j id now s other ∙ h
  ]

  terminal-after :
      (c : Call) (s : ChallengeStore) (r : ChallengeRecord)
      → IsOther id c
      → lookup id s ≡ some r
      → is_created r.status ≡ false
      → lookup id (after crypto c s) ≡ some r
  terminal-after (creates input new_id now) s r o h t = create_other input new_id id now s o ∙ h
  terminal-after (consumes approval key now algorithm) s r o h t =
      terminal-consume approval key now algorithm s r h t
  terminal-after (cancels j now) s r o h t = terminal-cancel j now s r h t

  -- A stored record that is confirmed, expired or cancelled is never changed again, whatever calls
  -- are made, as long as no new challenge gets its id.
  pub terminal-run :
      (cs : List Call) (s : ChallengeStore) (r : ChallengeRecord)
      → All (IsOther id) cs
      → lookup id s ≡ some r
      → is_created r.status ≡ false
      → lookup id (run crypto cs s) ≡ some r
  terminal-run [] s r o h t = h
  terminal-run (c ∷ cs) s r o h t =
      terminal-run cs (after crypto c s) r o.1 (terminal-after c s r o.0 h t) t

  confirmed-none :
      (c : Call) (s : ChallengeStore) (r : ChallengeRecord)
      → lookup id s ≡ some r
      → is_created r.status ≡ false
      → confirms crypto id c s ≡ false
  confirmed-none (creates input new_id now) s r h t = refl
  confirmed-none (consumes approval key now algorithm) s r h t =
      elim (same_or_other approval.binding.challenge_id) [
        | inl same ↦
            rw (consume_terminal crypto approval key now algorithm s r (rw same h) t)
              (and_false (approval.binding.challenge_id == id))
        | inr other ↦ ground (arith, text_eq_iff approval.binding.challenge_id id)
      ]
  confirmed-none (cancels j now) s r h t = refl

  none_after_terminal :
      (cs : List Call) (s : ChallengeStore) (r : ChallengeRecord)
      → All (IsOther id) cs
      → lookup id s ≡ some r
      → is_created r.status ≡ false
      → confirmations crypto id cs s ≡ 0
  none_after_terminal [] s r o h t = refl
  none_after_terminal (c ∷ cs) s r o h t =
      rw (confirmed-none c s r h t)
        (none_after_terminal cs (after crypto c s) r o.1 (terminal-after c s r o.0 h t) t)

  confirming :
      (approval : SignedApproval) (key : Text) (now : ℕ) (algorithm : Text) (s : ChallengeStore)
      (p : Result Error ChallengeRecord × ChallengeStore)
      → consume crypto approval key now algorithm s ≡ p
      → ((approval.binding.challenge_id == id) && is_ok p.0) ≡ true
      → (r : ChallengeRecord) × (lookup id p.1 ≡ some r) × (is_created r.status ≡ false)
  confirming approval key now algorithm s (err x, s') e h = absurd (ground arith)
  confirming approval key now algorithm s (ok r, s') e h =
      let c = consume_inv crypto approval key now algorithm s s' r e in
      let same : approval.binding.challenge_id ≡ id =
        ground (arith, text_eq_iff approval.binding.challenge_id id) in
      (r, rw (c.written, same) (lookup-insert_self id r s), rw c.result refl)

  -- The call that confirms leaves a terminal record.
  confirms-terminal :
      (c : Call) (s : ChallengeStore)
      → confirms crypto id c s ≡ true
      → (r : ChallengeRecord) × (lookup id (after crypto c s) ≡ some r)
        × (is_created r.status ≡ false)
  confirms-terminal (creates input new_id now) s h = cc
  confirms-terminal (consumes approval key now algorithm) s h =
      confirming approval key now algorithm s (consume crypto approval key now algorithm s) refl h
  confirms-terminal (cancels j now) s h = cc

  -- Whatever calls of create, consume and cancel are made on a store, and as long as no new
  -- challenge gets its id, a challenge is confirmed by at most one of them.
  pub confirmed_at_most_once :
      (cs : List Call) (s : ChallengeStore) → All (IsOther id) cs → confirmations crypto id cs s ≤ 1
  confirmed_at_most_once [] s o = omega arith
  confirmed_at_most_once (c ∷ cs) s o = elim (Bool-cases (confirms crypto id c s)) [
    | inl now ↦
        let (r, stored, terminal) = confirms-terminal c s now in
        rw (now, none_after_terminal cs (after crypto c s) r o.1 stored terminal) (omega arith)
    | inr later ↦ rw later (confirmed_at_most_once cs (after crypto c s) o.1)
  ]
