-- ===== src/Audit/Restore/Anchors.antt =====
-- packages/audit/auditLog.ts: what a trust anchor says of the log that is restored against it.
use contactless_airlock_lab.Prelude.{
  ℕ, text, Text, ◌++◌, none, Option, ◌≡◌, refl, sym, ap, ◌∙◌, Bool, true, false, some, List, ◌∷◌,
  arith, length, text_Eq, text_eq_iff, Bool-cases, ◌⊎◌, inl, inr, Result, ok, err, if◌then◌else◌,
}
use contactless_airlock_lab.Audit.{AuditBody}
use contactless_airlock_lab.Audit.Keyring.{AuditError, anchor_mismatch}
use contactless_airlock_lab.Audit.Signed.{
  AuditAuthentication, authentication_tag, is_authentication, newline, tag_of, tip, SignedEvent,
  KeyProvider, TrustAnchor, Functions, authenticated,
}
use contactless_airlock_lab.Audit.Verification.{
  Position, start, past, verify_signed, trust_anchor, same_anchor,
}
use contactless_airlock_lab.Audit.Evidence.{
  Follows, Leads-hash, Leads, arrived, led, verify_signed-iff-Leads,
}
use contactless_airlock_lab.Audit.Restore.Frames.{is_line, matches_id-line, tail_cut}
use contactless_airlock_lab.Audit.Restore.{Restored, are_events, is_signed, if_verified, restore}

module _ {T P : Type 0} (f : Functions T P)
    (digests : (x y : AuditBody T P) → f.digest x ≡ f.digest y → x ≡ y)
    (macs : (k k' : List ℕ) (t t' : Text)
      → f.decode (f.hmac k t) ≡ f.decode (f.hmac k' t')
      → t ≡ t')
    (prints : (m n : ℕ) → f.print m ≡ f.print n → m ≡ n)
    (lines : (n : ℕ) → is_line (f.print n) ≡ true) where
  -- An event is determined by its hash and its tag, and so is the position that it follows.
  same_event :
      (p q : KeyProvider) (at at' : Position) (x y : SignedEvent T P) (v : Follows f p at x)
      (w : Follows f q at' y)
      → x.hash ≡ y.hash
      → v.authentication.tag ≡ w.authentication.tag
      → (x ≡ y) × (at.previous_hash ≡ at'.previous_hash) × (at.previous_tag ≡ at'.previous_tag)
  unfolding authentication_tag is_authentication
  same_event p q at at' x y v w hashes tags =
      let a = v.authentication in
      let b = w.authentication in
      let bodies : x.body ≡ y.body = digests x.body y.body (v.hashed ∙ hashes ∙ sym w.hashed) in
      let head : Text =
        text "airlock-audit-hmac-v1"
        ++ newline
        ++ f.print x.body.sequence
        ++ newline
        ++ x.hash
        ++ newline in
      let signed : Text → ℕ → Text → Text =
        λ id n previous. head ++ id ++ newline ++ f.print n ++ newline ++ previous in
      let authentic : f.decode (
            authentication_tag f w.key.key x.body.sequence x.hash b.key_id b.key_version
              at'.previous_tag)
          ≡ f.decode b.tag =
        rw (bodies, hashes) w.authentic in
      let texts =
        macs v.key.key w.key.key (signed a.key_id a.key_version at.previous_tag)
          (signed b.key_id b.key_version at'.previous_tag)
          (v.authentic ∙ ap f.decode tags ∙ sym authentic) in
      let (ids, versions, previous) =
        tail_cut f head a.key_id b.key_id at.previous_tag at'.previous_tag a.key_version
          b.key_version prints lines (matches_id-line a.key_id (ground (arith, v.well_formed)))
          (matches_id-line b.key_id (ground (arith, w.well_formed))) texts in
      let chained : a.previous_authentication_tag ≡ b.previous_authentication_tag =
        v.tag_chained ∙ previous ∙ sym w.tag_chained in
      let one : a ≡ b = ground (arith, ids, versions, chained, tags) in
      let links : at.previous_hash ≡ at'.previous_hash =
        sym v.chained ∙ ap (λ (z : AuditBody T P). z.previous_hash) bodies ∙ w.chained in
      (ground (arith, bodies, hashes, one, v.signed, w.signed), links, previous)

  -- Two logs of one length, to one last hash and tag, are the same, whatever keys they were signed with.
  same_log :
      (p q : KeyProvider) (at at' last last' : Position) (a b : List (SignedEvent T P))
      → length a ≡ length b
      → Leads f p at a last
      → Leads f q at' b last'
      → last.previous_hash ≡ last'.previous_hash
      → last.previous_tag ≡ last'.previous_tag
      → (a ≡ b) × (at.previous_hash ≡ at'.previous_hash) × (at.previous_tag ≡ at'.previous_tag)
  same_log p q _ _ _ _ _ _ n (arrived at) (arrived at') hashes tags = (refl, hashes, tags)
  same_log p q _ _ _ _ _ _ n (arrived at) (led at' y b last' v m) hashes tags =
      absurd (omega (arith, n))
  same_log p q _ _ _ _ _ _ n (led at x a last w l) (arrived at') hashes tags =
      absurd (omega (arith, n))
  same_log p q _ _ _ _ _ _ n (led at x a last w l) (led at' y b last' v m) hashes tags =
      let (rest, hash, tag) =
        same_log p q (past f x w.authentication) (past f y v.authentication) last last' a b
          (omega (arith, n)) l m hashes tags in
      let (event, links, previous) = same_event p q at at' x y w v hash tag in
      (
        ap (λ (z : SignedEvent T P). z ∷ a) event
            ∙ ap (λ (zs : List (SignedEvent T P)). y ∷ zs) rest,
        links,
        previous,
      )

module _ {T P : Type 0} (f : Functions T P) where
  same_anchor-facts :
      (a b : TrustAnchor)
      → same_anchor a b ≡ true
      → (a.event_count ≡ b.event_count)
        × (a.tip_hash ≡ b.tip_hash)
        × (a.tip_authentication_tag ≡ b.tip_authentication_tag)
  unfolding same_anchor
  same_anchor-facts a b h = (
    ground (arith, h),
    ground (arith, h, text_eq_iff a.tip_hash b.tip_hash),
    ground (arith, h, text_eq_iff a.tip_authentication_tag b.tip_authentication_tag),
  )

  Leads-tag :
      (p : KeyProvider) (at last : Position) (o : Option AuditAuthentication)
      (log : List (SignedEvent T P))
      → tag_of o ≡ at.previous_tag
      → Leads f p at log last
      → last.previous_tag ≡ tag_of (tip o log)
  Leads-tag p _ _ o _ h (arrived at) = sym h
  Leads-tag p _ _ o _ h (led at e es last w l) =
      Leads-tag p (past f e w.authentication) last e.authentication es (ap tag_of w.signed) l

  verified_cases :
      (v : Result AuditError Bool)
      → (v ≡ ok true)
        ⊎ ((next : Result AuditError (Restored T P)) (s : Restored T P)
            → if_verified v next ≡ ok s
            → ⊥)
  verified_cases (ok true) = inl refl
  verified_cases (ok false) = inr (λ next s h. absurd (ground (arith, h)))
  verified_cases (err x) = inr (λ next s h. absurd (ground (arith, h)))

  restored_facts :
      (p : KeyProvider) (anchor : TrustAnchor) (log : List (SignedEvent T P)) (s : Restored T P)
      → restore f (authenticated log) (some (p, anchor)) ≡ ok s
      → (verify_signed f (some p) log ≡ ok true)
        × (same_anchor (trust_anchor p log) anchor ≡ true)
        × (s ≡ (some p, log))
  unfolding restore
  restored_facts p anchor log s h = elim (Bool-cases (are_events is_signed 1 log)) [
    | inr fails ↦ absurd (ground (arith, h, fails))
    | inl events ↦ elim (verified_cases (verify_signed f (some p) log)) [
      | inr fails ↦ absurd (
          fails
            (if same_anchor (trust_anchor p log) anchor
              then ok (some p, log)
              else err anchor_mismatch)
            s (ground (arith, h, events)))
      | inl verified ↦ elim (Bool-cases (same_anchor (trust_anchor p log) anchor)) [
        | inr fails ↦ absurd (ground (arith, h, events, verified, fails))
        | inl same ↦ (verified, same, ground (arith, h, events, verified, same))
      ]
    ]
  ]

module _ {T P : Type 0} (f : Functions T P) where
  -- Where the digest of bodies and the decoded HMAC of texts have no collisions, and the digits of
  -- numbers are injective and without a newline: whatever signed log is restored against the trust
  -- anchor of a log that verifies is that log, with its hashes and authentications, whatever
  -- provider the restoring side has.
  pub restore_detects :
      (p q : KeyProvider) (log es : List (SignedEvent T P)) (s : Restored T P)
      → ((x y : AuditBody T P) → f.digest x ≡ f.digest y → x ≡ y)
      → ((k k' : List ℕ) (t t' : Text) → f.decode (f.hmac k t) ≡ f.decode (f.hmac k' t') → t ≡ t')
      → ((m n : ℕ) → f.print m ≡ f.print n → m ≡ n)
      → ((n : ℕ) → is_line (f.print n) ≡ true)
      → verify_signed f (some p) log ≡ ok true
      → restore f (authenticated es) (some (q, trust_anchor p log)) ≡ ok s
      → s ≡ (some q, log)
  unfolding trust_anchor
  restore_detects p q log es s digests macs prints lines was h =
      let (is, same, out) = restored_facts f q (trust_anchor p log) es s h in
      let (n, hashes, tags) = same_anchor-facts f (trust_anchor q es) (trust_anchor p log) same in
      let (last, l) = (verify_signed-iff-Leads f p log).0 was in
      let (last', m) = (verify_signed-iff-Leads f q es).0 is in
      let one : es ≡ log =
        (same_log f digests macs prints lines q p start start last' last es log n m l
          (Leads-hash f q start last' es m ∙ hashes ∙ sym (Leads-hash f p start last log l))
          (Leads-tag f q start last' none es refl m
            ∙ tags
            ∙ sym (Leads-tag f p start last none log refl l))).0 in
      out ∙ ap (λ (z : List (SignedEvent T P)). (some q, z)) one
