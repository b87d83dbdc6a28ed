-- ===== src/Audit/Evidence.antt =====
-- packages/audit/auditLog.ts: what the verification of a log with a key provider accepts.
use contactless_airlock_lab.Prelude.{
  ◌≡◌, ◌↔◌, refl, ◌≤◌, true, ◌&&◌, Option, none, some, List, [], ◌∷◌, ◌++◌, Text, arith, ◌==◌,
  text_Eq, text_eq_iff, Bool-cases, Option-cases, ◌⊎◌, inl, inr, Result, ok, err,
}
use contactless_airlock_lab.Audit.Keyring.{AuditError, VerificationKey, is_key}
use contactless_airlock_lab.Audit.Signed.{
  authentication_tag, AuditAuthentication, SignedEvent, KeyProvider, Functions, is_authentication,
  tip_hash,
}
use contactless_airlock_lab.Audit.Verification.{
  Position, start, past, is_linked, is_key_of, is_tag_of, same_key_id, check_key, check_event,
  check, verify_rest, verify_signed,
}

module _ {T P : Type 0} (f : Functions T P) (p : KeyProvider) where
  -- An event follows a position: its hash and its tag do, under a key that is not older.
  pub record Follows (at : Position) (e : SignedEvent T P) : Type 0 where
    pub authentication : AuditAuthentication
    pub key : VerificationKey
    pub signed : e.authentication ≡ some authentication
    pub known : p.key_for authentication.key_id ≡ some key
    pub chained : e.body.previous_hash ≡ at.previous_hash
    pub hashed : f.digest e.body ≡ e.hash
    pub well_formed : is_authentication authentication ≡ true
    pub tag_chained : authentication.previous_authentication_tag ≡ at.previous_tag
    pub same_version : key.key_version ≡ authentication.key_version
    pub not_older : at.previous_version ≤ authentication.key_version
    pub one_key :
        at.previous_version ≡ authentication.key_version
        → at.previous_key_id ≡ some authentication.key_id
    pub key_valid : is_key authentication.key_id key.key ≡ true
    pub authentic :
        f.decode (
          authentication_tag f key.key e.body.sequence e.hash authentication.key_id
            authentication.key_version at.previous_tag)
        ≡ f.decode authentication.tag

  -- The events lead from a position to another, each following the one before.
  pub data Leads : Position → List (SignedEvent T P) → Position → Type 0 where
    arrived : (at : Position) → Leads at [] at
    led :
        (at : Position) (e : SignedEvent T P) (es : List (SignedEvent T P)) (last : Position)
        (follows : Follows at e)
        → Leads (past f e follows.authentication) es last
        → Leads at (e ∷ es) last

  same_key_id_iff : (o : Option Text) (id : Text) → (same_key_id f o id ≡ true) ↔ (o ≡ some id)
  same_key_id_iff none id = ground arith
  same_key_id_iff (some x) id = ground (arith, text_eq_iff x id)

  -- The tests that an event passes, one by one.
  tests_passed :
      (at mid : Position) (e : SignedEvent T P) (a : AuditAuthentication) (k : VerificationKey)
      → e.authentication ≡ some a
      → p.key_for a.key_id ≡ some k
      → check f (some p) at e ≡ ok (some mid)
      → (is_linked f at e ≡ true)
        × (is_authentication a ≡ true)
        × ((a.previous_authentication_tag == at.previous_tag) ≡ true)
        × (is_key_of f at a k ≡ true)
        × (is_key a.key_id k.key ≡ true)
        × (is_tag_of f at e a k ≡ true)
        × (mid ≡ past f e a)
  unfolding check check_event check_key
  tests_passed at mid e a k is known h = elim (Bool-cases (is_linked f at e)) [
    | inr fails ↦ absurd (ground (arith, h, fails))
    | inl linked ↦
        elim (Bool-cases
          (is_authentication a && a.previous_authentication_tag == at.previous_tag)) [
            | inr fails ↦ absurd (ground (arith, h, linked, is, fails))
            | inl formed ↦ elim (Bool-cases (is_key_of f at a k)) [
              | inr fails ↦ absurd (ground (arith, h, linked, is, formed, known, fails))
              | inl own ↦ elim (Bool-cases (is_key a.key_id k.key)) [
                | inr fails ↦ absurd (ground (arith, h, linked, is, formed, known, own, fails))
                | inl valid ↦ elim (Bool-cases (is_tag_of f at e a k)) [
                  | inr fails ↦
                      absurd (ground (arith, h, linked, is, formed, known, own, valid, fails))
                  | inl authentic ↦ (
                    linked,
                    ground (arith, formed),
                    ground (arith, formed),
                    own,
                    valid,
                    authentic,
                    ground (arith, h, linked, is, formed, known, own, valid, authentic),
                  )
                ]
              ]
            ]
          ]
  ]

  unsigned_fails :
      (at mid : Position) (e : SignedEvent T P)
      → e.authentication ≡ none
      → check f (some p) at e ≡ ok (some mid)
      → ⊥
  unfolding check check_event
  unsigned_fails at mid e n h = absurd (ground (arith, n, h))

  unknown_fails :
      (at mid : Position) (e : SignedEvent T P) (a : AuditAuthentication)
      → e.authentication ≡ some a
      → p.key_for a.key_id ≡ none
      → check f (some p) at e ≡ ok (some mid)
      → ⊥
  unfolding check check_event check_key
  unknown_fails at mid e a is n h = absurd (ground (arith, is, n, h))

  Follows-check :
      (at mid : Position) (e : SignedEvent T P)
      → check f (some p) at e ≡ ok (some mid)
      → (w : Follows at e) × (mid ≡ past f e w.authentication)
  Follows-check at mid e h = elim (Option-cases e.authentication) [
    | inl unsigned ↦ absurd (unsigned_fails at mid e unsigned h)
    | inr (a, is) ↦ elim (Option-cases (p.key_for a.key_id)) [
      | inl unknown ↦ absurd (unknown_fails at mid e a is unknown h)
      | inr (k, known) ↦
          let (linked, formed, chained, own, valid, authentic, next) =
            tests_passed at mid e a k is known h in
          (
            record {
              authentication = a;
              key = k;
              signed = is;
              known = known;
              chained = ground (arith, linked, text_eq_iff e.body.previous_hash at.previous_hash);
              hashed = ground (arith, linked, text_eq_iff (f.digest e.body) e.hash);
              well_formed = formed;
              tag_chained = (text_eq_iff a.previous_authentication_tag at.previous_tag).0 chained;
              same_version = ground (arith, own);
              not_older = ground (arith, own);
              one_key = λ q. ground (arith, own, q, same_key_id_iff at.previous_key_id a.key_id);
              key_valid = valid;
              authentic = (text_eq_iff _ _).0 authentic;
            },
            next,
          )
    ]
  ]

  check-Follows :
      (at : Position) (e : SignedEvent T P) (w : Follows at e)
      → check f (some p) at e ≡ ok (some (past f e w.authentication))
  unfolding check check_event check_key
  check-Follows at e w =
      let linked : is_linked f at e ≡ true = ground (
        arith,
        w.chained,
        w.hashed,
        text_eq_iff e.body.previous_hash at.previous_hash,
        text_eq_iff (f.digest e.body) e.hash,
      ) in
      let a = w.authentication in
      let own : is_key_of f at a w.key ≡ true = ground (
        arith,
        w.same_version,
        w.not_older,
        w.one_key,
        same_key_id_iff at.previous_key_id a.key_id,
      ) in
      let authentic : is_tag_of f at e a w.key ≡ true = (text_eq_iff _ _).1 w.authentic in
      ground (
        arith,
        linked,
        w.signed,
        w.known,
        w.well_formed,
        own,
        w.key_valid,
        authentic,
        text_eq_iff a.previous_authentication_tag at.previous_tag,
        w.tag_chained,
      )

  Leads-verify_rest :
      (at : Position) (log : List (SignedEvent T P))
      → verify_rest f (some p) at log ≡ ok true
      → (last : Position) × Leads at log last
  unfolding verify_rest
  Leads-verify_rest at [] h = (at, arrived at)
  Leads-verify_rest at (e ∷ es) h = elim (check_result at e) [
    | inl (x, is) ↦ absurd (ground (arith, h, is))
    | inr (inl is) ↦ absurd (ground (arith, h, is))
    | inr (inr (mid, is)) ↦
        let (w, same) = Follows-check at mid e is in
        let rest : verify_rest f (some p) mid es ≡ ok true = rw (is, verify_rest) at h in
        let (last, leads) = Leads-verify_rest (past f e w.authentication) es (rw same at rest) in
        (last, led at e es last w leads)
  ]
    where
      check_result :
          (at : Position) (e : SignedEvent T P)
          → ((x : AuditError) × (check f (some p) at e ≡ err x))
            ⊎ ((check f (some p) at e ≡ ok none)
                ⊎ ((mid : Position) × (check f (some p) at e ≡ ok (some mid))))
      check_result at e = result (check f (some p) at e) refl
        where
          result :
              (r : Result AuditError (Option Position))
              → check f (some p) at e ≡ r
              → ((x : AuditError) × (check f (some p) at e ≡ err x))
                ⊎ ((check f (some p) at e ≡ ok none)
                    ⊎ ((mid : Position) × (check f (some p) at e ≡ ok (some mid))))
          result (err x) h = inl (x, h)
          result (ok none) h = inr (inl h)
          result (ok (some mid)) h = inr (inr (mid, h))

  verify_rest-Leads :
      (at last : Position) (log : List (SignedEvent T P))
      → Leads at log last
      → verify_rest f (some p) at log ≡ ok true
  unfolding verify_rest
  verify_rest-Leads _ _ _ (arrived at) = refl
  verify_rest-Leads _ _ _ (led at e es last w l) =
      rw (check-Follows at e w, verify_rest)
        (verify_rest-Leads (past f e w.authentication) last es l)

  -- `verify` of a log with a key provider returns true exactly when each event follows the one
  -- before, by `Follows`, from the start.
  pub verify_signed-iff-Leads :
      (log : List (SignedEvent T P))
      → (verify_signed f (some p) log ≡ ok true) ↔ ((last : Position) × Leads start log last)
  unfolding verify_signed
  verify_signed-iff-Leads log =
      (Leads-verify_rest start log, λ (last, l). verify_rest-Leads start last log l)

  pub Leads-append :
      (at last : Position) (log : List (SignedEvent T P)) (e : SignedEvent T P) (w : Follows last e)
      → Leads at log last
      → Leads at (log ++ e ∷ []) (past f e w.authentication)
  Leads-append _ _ _ e w (arrived at) = led at e [] (past f e w.authentication) w (arrived _)
  Leads-append _ _ _ e w (led at x es last v l) =
      led at x (es ++ e ∷ []) (past f e w.authentication) v
        (Leads-append (past f x v.authentication) last es e w l)

  pub Leads-hash :
      (at last : Position) (log : List (SignedEvent T P))
      → Leads at log last
      → last.previous_hash ≡ tip_hash at.previous_hash log
  Leads-hash _ _ _ (arrived at) = refl
  Leads-hash _ _ _ (led at e es last w l) = Leads-hash (past f e w.authentication) last es l
