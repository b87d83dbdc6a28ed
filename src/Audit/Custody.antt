-- ===== src/Audit/Custody.antt =====
-- packages/audit/auditLog.ts: a log over the keyring that signs it.
pub mod Calls
use contactless_airlock_lab.Prelude.{
  ◌≡◌, ◌≢◌, refl, sym, ap, ◌∙◌, subst, ℕ, ◌+◌, ◌≤◌, ◌<◌, Bool, true, false, not, ◌&&◌, ◌||◌, Option,
  none, some, List, [], ◌∷◌, ◌++◌, Text, arith, leb, ltb, nat_eq, matches_id, length, ◌==◌, text_Eq,
  text_eq_iff, eq_refl, lookup, Bool-cases, Option-cases, ◌⊎◌, inl, inr, Result, ok, err,
  if◌then◌else◌,
}
use contactless_airlock_lab.Audit.{AuditBody, hash_genesis}
use contactless_airlock_lab.Audit.Keyring.{
  AuditError, KeyStatus, KeyEntry, ActiveKey, VerificationKey, Keyring, is_key, add, activate,
  active_key, key_for,
}
use contactless_airlock_lab.Audit.Signed.{
  AuditAuthentication, SignedEvent, KeyProvider, Functions, is_authentication, matches_tag,
  authentication_genesis, next_body, new_authentication, signed, pushed, append_signed, tip_hash,
  tip, tag_of,
}
use contactless_airlock_lab.Audit.Verification.{Position, start, past, verify_signed}
use contactless_airlock_lab.Audit.Rotation.{
  IsSound, Still, add-IsSound, activate-IsSound, add-Still, activate-Still, key_for_bounds,
}
use contactless_airlock_lab.Audit.Evidence.{
  Follows, Leads, arrived, led, verify_signed-iff-Leads, Leads-append, Leads-hash,
}

-- InMemoryAuditKeyring as an AuditKeyProvider, with its active key.
abbrev pub provider : ActiveKey → Keyring → KeyProvider
provider k r = record { active_key = k; key_for = λ id. key_for id r }

-- The active key of a sound keyring, as both of its readers return it.
abbrev pub key_of : (r : Keyring) → IsSound r → ActiveKey
key_of r s = record {
  key_id = r.active_key_id;
  key_version = r.latest_key_version;
  key = s.active.key;
}

pub active-of-IsSound : (r : Keyring) (s : IsSound r) → active_key r ≡ some (key_of r s)
unfolding active_key
active-of-IsSound r s = ground (arith, s.stored, s.version)

pub key_for-active :
    (r : Keyring) (s : IsSound r)
    → key_for r.active_key_id r
      ≡ some (record {
        key_id = r.active_key_id;
        key_version = r.latest_key_version;
        key = s.active.key;
        status = s.active.status;
      })
unfolding key_for
key_for-active r s = ground (arith, s.stored, s.version, s.is_active)

module _ {T P : Type 0} (f : Functions T P) where
  -- Events lead on under another provider that has the same key for every id that was used.
  pub Leads-other :
      (p q : KeyProvider) (at last : Position) (log : List (SignedEvent T P))
      → ((id : Text) (k : VerificationKey)
          → p.key_for id ≡ some k
          → (j : VerificationKey) × (q.key_for id ≡ some j)
            × (j.key ≡ k.key)
            × (j.key_version ≡ k.key_version))
      → Leads f p at log last
      → Leads f q at log last
  Leads-other p q _ _ _ h (arrived at) = arrived at
  Leads-other p q _ _ _ h (led at e es last w l) =
      let (j, known, same_key, same_version) = h w.authentication.key_id w.key w.known in
      led at e es last
        (record {
          authentication = w.authentication;
          key = j;
          signed = w.signed;
          known = known;
          chained = w.chained;
          hashed = w.hashed;
          well_formed = w.well_formed;
          tag_chained = w.tag_chained;
          same_version = same_version ∙ w.same_version;
          not_older = w.not_older;
          one_key = w.one_key;
          key_valid = rw same_key w.key_valid;
          authentic = rw same_key w.authentic;
        })
        (Leads-other p q (past f e w.authentication) last es h l)

  pub Leads-tag :
      (p : KeyProvider) (at last : Position) (log : List (SignedEvent T P))
      (o : Option AuditAuthentication)
      → at.previous_tag ≡ tag_of o
      → Leads f p at log last
      → last.previous_tag ≡ tag_of (tip o log)
  Leads-tag p _ _ _ o h (arrived at) = h
  Leads-tag p _ _ _ o h (led at e es last w l) =
      Leads-tag p (past f e w.authentication) last es e.authentication (rw w.signed refl) l

  -- What a position says of the keyring: its tag is well formed, its key not newer than the active one.
  pub record Bounded (r : Keyring) (at : Position) : Type 0 where
    pub formed : (at.previous_tag == authentication_genesis || matches_tag at.previous_tag) ≡ true
    pub not_newer : at.previous_version ≤ r.latest_key_version
    pub own : at.previous_version ≡ r.latest_key_version → at.previous_key_id ≡ some r.active_key_id

  past-Bounded :
      (k : ActiveKey) (r : Keyring) (at : Position) (e : SignedEvent T P)
      (w : Follows f (provider k r) at e)
      → IsSound r
      → Bounded r (past f e w.authentication)
  unfolding is_authentication
  past-Bounded k r at e w s =
      let a = w.authentication in
      let (valid, most, one) = key_for_bounds a.key_id w.key r s w.known in
      record {
        formed = ground (arith, w.well_formed);
        not_newer = omega (arith, most, w.same_version);
        own = λ q. ap (λ (x : Text). some x) (one (w.same_version ∙ q));
      }

  pub Leads-Bounded :
      (k : ActiveKey) (r : Keyring) (at last : Position) (log : List (SignedEvent T P))
      → IsSound r
      → Bounded r at
      → Leads f (provider k r) at log last
      → Bounded r last
  Leads-Bounded k r _ _ _ s b (arrived at) = b
  Leads-Bounded k r _ _ _ s b (led at e es last w l) =
      Leads-Bounded k r (past f e w.authentication) last es s (past-Bounded k r at e w s) l

  pub start-Bounded : (r : Keyring) → IsSound r → Bounded r start
  start-Bounded r s = record {
    formed = ground (arith, eq_refl authentication_genesis);
    not_newer = omega arith;
    own = λ q. absurd (omega (arith, s.positive, q));
  }
