-- ===== src/Audit/Restore/RoundTrip.antt =====
-- packages/audit/auditLog.ts: a log comes back from its snapshot.
use contactless_airlock_lab.Prelude.{
  ◌≡◌, refl, ℕ, ◌+◌, ◌<◌, Bool, true, Option, none, some, List, [], ◌∷◌, ◌++◌, Text, arith, length,
  text_Eq, eq_refl, Bool-cases, inl, inr, ok,
}
use contactless_airlock_lab.Audit.Keyring.{
  ActiveKey, Keyring, is_key, add, activate, active_key, construct, no_keyring,
}
use contactless_airlock_lab.Audit.Signed.{
  AuditAuthentication, SignedEvent, KeyProvider, TrustAnchor, Functions, matches_tag, append_signed,
}
use contactless_airlock_lab.Audit.Verification.{
  Position, start, past, verify_signed, trust_anchor, option_text_eq, option_nat_eq, same_anchor,
}
use contactless_airlock_lab.Audit.Evidence.{Leads, arrived, led, verify_signed-iff-Leads}
use contactless_airlock_lab.Audit.Custody.{provider}
use contactless_airlock_lab.Audit.Custody.Calls.{
  Call, adds, activates, appends, appended_by, run, verify_signed-run,
}
use contactless_airlock_lab.Audit.Restore.{are_events, is_signed, restore, snapshot}

abbrev any_signature : Option AuditAuthentication → Bool
any_signature a = true

option_text_eq_refl : (o : Option Text) → option_text_eq o o ≡ true
option_text_eq_refl none = refl
option_text_eq_refl (some a) = eq_refl a

option_nat_eq_refl : (o : Option ℕ) → option_nat_eq o o ≡ true
option_nat_eq_refl none = refl
option_nat_eq_refl (some n) = ground arith

same_anchor_refl : (a : TrustAnchor) → same_anchor a a ≡ true
unfolding same_anchor
same_anchor_refl a =
    rw
      (
        eq_refl a.tip_hash,
        eq_refl a.tip_authentication_tag,
        eq_refl a.active_key_id,
        option_text_eq_refl a.tip_key_id,
        option_nat_eq_refl a.tip_key_version,
      )
      (ground arith)

module _ {T P : Type 0} (f : Functions T P) where
  are_events-append :
      (n : ℕ) (log : List (SignedEvent T P)) (e : SignedEvent T P)
      → are_events any_signature n log ≡ true
      → e.body.sequence ≡ n + length log
      → are_events any_signature n (log ++ e ∷ []) ≡ true
  unfolding are_events
  are_events-append n [] e h is = ground (arith, is)
  are_events-append n (x ∷ log) e h is =
      ground (arith, h, are_events-append (n + 1) log e (ground (arith, h)) (omega (arith, is)))

  -- What verifies and is numbered passes the tests of a snapshot's events.
  signed_events :
      (p : KeyProvider) (n : ℕ) (at last : Position) (log : List (SignedEvent T P))
      → Leads f p at log last
      → are_events any_signature n log ≡ true
      → are_events is_signed n log ≡ true
  unfolding are_events
  signed_events p n _ _ _ (arrived at) h = refl
  signed_events p n _ _ _ (led at e es last w l) h =
      let rest =
        signed_events p (n + 1) (past f e w.authentication) last es l (ground (arith, h)) in
      ground (arith, h, rest, w.signed, w.well_formed)

  appended-are_events :
      (o : Option ActiveKey) (type : T) (correlation_id : Text) (payload : P) (occurred_at : ℕ)
      (event_id : Text) (r : Keyring) (log : List (SignedEvent T P))
      → are_events any_signature 1 log ≡ true
      → are_events any_signature 1
          (appended_by f o type correlation_id payload occurred_at event_id r log)
        ≡ true
  unfolding append_signed
  appended-are_events none type correlation_id payload occurred_at event_id r log h = h
  appended-are_events (some k) type correlation_id payload occurred_at event_id r log h =
      elim (Bool-cases (is_key k.key_id k.key)) [
        | inl valid ↦ rw valid (are_events-append 1 log _ h (omega arith))
        | inr fails ↦ rw fails h
      ]

  run-are_events :
      (cs : List (Call T P)) (s : Keyring × List (SignedEvent T P))
      → are_events any_signature 1 s.1 ≡ true
      → are_events any_signature 1 (run f cs s).1 ≡ true
  run-are_events [] s h = h
  run-are_events (adds id key ∷ cs) (r, log) h = run-are_events cs ((add id key r).1, log) h
  run-are_events (activates id ∷ cs) (r, log) h = run-are_events cs ((activate id r).1, log) h
  run-are_events (appends type correlation_id payload occurred_at event_id ∷ cs) (r, log) h =
      run-are_events cs
        (r, appended_by f (active_key r) type correlation_id payload occurred_at event_id r log)
        (appended-are_events (active_key r) type correlation_id payload occurred_at event_id r log
          h)

  restore-accepts :
      (p : KeyProvider) (log : List (SignedEvent T P))
      → are_events is_signed 1 log ≡ true
      → verify_signed f (some p) log ≡ ok true
      → restore f (snapshot (some p, log)) (some (p, trust_anchor p log)) ≡ ok (some p, log)
  unfolding restore snapshot
  restore-accepts p log events verified =
      rw (events, verified, same_anchor_refl (trust_anchor p log)) refl

  -- If every HMAC in base64url has the form of a tag, then after whatever additions and
  -- activations of keys and appended events, fewer than 2^53 - 1, from a keyring that was
  -- constructed and an empty log, there is an active key, and the log is restored from its own
  -- snapshot and trust anchor as it is.
  pub restore-run :
      (keys : List (Text × List ℕ)) (active_id : Text) (r : Keyring) (cs : List (Call T P))
      → ((key : List ℕ) (t : Text) → matches_tag (f.hmac key t) ≡ true)
      → construct keys active_id no_keyring ≡ (ok tt, r)
      → length cs < 9007199254740991
      → let s = run f cs (r, []) in
        (k : ActiveKey) × (active_key s.0 ≡ some k)
        × (let p = provider k s.0 in
            restore f (snapshot (some p, s.1)) (some (p, trust_anchor p s.1)) ≡ ok (some p, s.1))
  unfolding are_events
  restore-run keys active_id r cs tagged made few =
      let (k, active, verified) = verify_signed-run f keys active_id r cs tagged made few in
      let s = run f cs (r, []) in
      let p = provider k s.0 in
      let (last, l) = (verify_signed-iff-Leads f p s.1).0 verified in
      let numbered = run-are_events cs (r, []) refl in
      (k, active, restore-accepts p s.1 (signed_events p 1 start last s.1 l numbered) verified)
