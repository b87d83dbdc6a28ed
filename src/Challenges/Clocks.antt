-- ===== src/Challenges/Clocks.antt =====
-- packages/state-machine/challengeStore.ts: a consumption by a clock that is behind.
use contactless_airlock_lab.Prelude.{
  ◌≡◌, ℕ, ◌<◌, Text, some, [], ◌∷◌, ok, err, arith, ap, ◌∙◌, refl, insert, text_Eq, lookup, true,
  ◌>>=◌,
}
use contactless_airlock_lab.Protocol.{
  SignedApproval, ChallengeRecord, created, confirmed, consumed_before_issuance,
}
use contactless_airlock_lab.Protocol.Canonical.{Fields, canonicalize_binding}
use contactless_airlock_lab.Crypto.{Crypto, verify_approval}
use contactless_airlock_lab.Challenges.{
  ChallengeStore, consume, restore_record, restore_all, restore,
}
use contactless_airlock_lab.Challenges.Consumption.{Consumed, consume-iff-Consumed}

-- A stored challenge that is created, whose binding is valid and that of an approval, and expires
-- after it was issued: where the signature of the approval verifies, `consume` at an instant
-- before the issuance stores and returns the record as confirmed at that instant, and `restore`
-- rejects a snapshot of that record, as consumed before issuance.
pub consumed_early :
    (crypto : Crypto) (approval : SignedApproval) (key : Text) (now : ℕ) (algorithm : Text)
    (found : ChallengeRecord) (payload : Fields) (s : ChallengeStore)
    → lookup approval.binding.challenge_id s ≡ some found
    → found.status ≡ created
    → found.binding ≡ approval.binding
    → canonicalize_binding approval.binding ≡ ok payload
    → verify_approval crypto approval key algorithm ≡ ok true
    → now < found.binding.issued_at
    → found.binding.issued_at < found.binding.expires_at
    → let r = record found { status = confirmed; consumed_at = some now } in
      (consume crypto approval key now algorithm s
        ≡ (ok r, insert approval.binding.challenge_id r s))
      × (restore (r ∷ []) ≡ err consumed_before_issuance)
unfolding restore restore_all restore_record lookup ◌>>=◌
consumed_early crypto approval key now algorithm found payload s stored unused same valid signed
      early order =
    let r : ChallengeRecord = record found { status = confirmed; consumed_at = some now } in
    let s' = insert approval.binding.challenge_id r s in
    let c : Consumed crypto approval key now algorithm s r s' = record {
      found = found;
      stored = stored;
      unused = unused;
      same_binding = same;
      payload = payload;
      valid = valid;
      in_time = omega (arith, early, order);
      signed = signed;
      result = refl;
      written = refl;
    } in
    let found_valid : canonicalize_binding found.binding ≡ ok payload =
      ap canonicalize_binding same ∙ valid in
    (
      (consume-iff-Consumed crypto approval key now algorithm s s' r).1 c,
      ground (arith, found_valid, early, order),
    )
