-- ===== src/Audit/Chain.antt =====
-- packages/audit/auditLog.ts: chains of events that verify.
use contactless_airlock_lab.Prelude.{
  ℕ, ◌≡◌, refl, true, [], ◌∷◌, ◌++◌, Text, text_Eq, text_eq_iff, length, arith,
}
use contactless_airlock_lab.Audit.{
  AuditBody, AuditEvent, AuditLog, hash_genesis, last_hash, append, new_body, hashed, verify_from,
  verify,
}

module _ {T P : Type 0} (digest : AuditBody T P → Text) where
  verify_from-append :
      (previous : Text) (log : AuditLog T P) (e : AuditEvent T P)
      → verify_from digest previous log ≡ true
      → e.body.previous_hash ≡ last_hash previous log
      → e.hash ≡ digest e.body
      → verify_from digest previous (log ++ e ∷ []) ≡ true
  unfolding verify_from
  verify_from-append previous [] e v b c =
      ground (arith, text_eq_iff e.body.previous_hash previous, text_eq_iff (digest e.body) e.hash)
  verify_from-append previous (x ∷ log) e v b c = ground (arith, verify_from-append x.hash log e)

  -- A log that verifies still verifies after an append.
  pub verify-append :
      (type : T) (correlation_id : Text) (payload : P) (occurred_at : ℕ) (event_id : Text)
      (log : AuditLog T P)
      → verify digest log ≡ true
      → verify digest (append digest type correlation_id payload occurred_at event_id log) ≡ true
  unfolding verify append
  verify-append type correlation_id payload occurred_at event_id log v =
      verify_from-append hash_genesis log
        (hashed digest (new_body type correlation_id payload occurred_at event_id log)) v refl refl

  same_events :
      (p q : Text) (a b : AuditLog T P)
      → ((x y : AuditBody T P) → digest x ≡ digest y → x ≡ y)
      → length a ≡ length b
      → verify_from digest p a ≡ true
      → verify_from digest q b ≡ true
      → last_hash p a ≡ last_hash q b
      → (p ≡ q) × (a ≡ b)
  unfolding verify_from
  same_events p q [] [] inj n v w h = (h, refl)
  same_events p q [] (y ∷ b) inj n v w h = absurd (omega arith)
  same_events p q (x ∷ a) [] inj n v w h = absurd (omega arith)
  same_events p q (x ∷ a) (y ∷ b) inj n v w h =
      let bodies = inj x.body y.body in
      ground (
        arith,
        same_events x.hash y.hash a b inj,
        text_eq_iff x.body.previous_hash p,
        text_eq_iff y.body.previous_hash q,
        text_eq_iff (digest x.body) x.hash,
        text_eq_iff (digest y.body) y.hash,
        bodies,
      )

  -- With a digest without collisions, two logs of one length that verify and end in the same hash
  -- are equal.
  pub last_hash-determines :
      (a b : AuditLog T P)
      → ((x y : AuditBody T P) → digest x ≡ digest y → x ≡ y)
      → length a ≡ length b
      → verify digest a ≡ true
      → verify digest b ≡ true
      → last_hash hash_genesis a ≡ last_hash hash_genesis b
      → a ≡ b
  unfolding verify
  last_hash-determines a b inj n v w h = (same_events hash_genesis hash_genesis a b inj n v w h).1
