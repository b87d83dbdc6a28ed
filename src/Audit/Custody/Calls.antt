-- ===== src/Audit/Custody/Calls.antt =====
-- packages/audit/auditLog.ts: a log and its keyring under calls.
use contactless_airlock_lab.Prelude.{
  ◌≡◌, refl, sym, ◌∙◌, ℕ, ◌+◌, ◌≤◌, ◌<◌, true, ◌||◌, Option, none, some, List, [], ◌∷◌, ◌++◌, Text,
  arith, length, ◌==◌, text_Eq, Result, ok, err,
}
use contactless_airlock_lab.Audit.{AuditBody, hash_genesis}
use contactless_airlock_lab.Audit.Keyring.{
  AuditError, ActiveKey, VerificationKey, Keyring, add, activate, active_key, key_for, construct,
  no_keyring,
}
use contactless_airlock_lab.Audit.Signed.{
  authentication_tag, SignedEvent, Functions, is_authentication, matches_tag,
  authentication_genesis, next_body, new_authentication, append_signed, tip_hash, tip, tag_of,
}
use contactless_airlock_lab.Audit.Verification.{Position, start, past, verify_signed}
use contactless_airlock_lab.Audit.Rotation.{
  IsSound, Still, add-IsSound, activate-IsSound, latest-add, latest-activate, add-Still,
  activate-Still,
}
use contactless_airlock_lab.Audit.Provisioned.{construct-IsSound}
use contactless_airlock_lab.Audit.Evidence.{
  Follows, Leads, arrived, verify_signed-iff-Leads, Leads-append, Leads-hash,
}
use contactless_airlock_lab.Audit.Custody.{
  provider, key_of, active-of-IsSound, key_for-active, Leads-other, Leads-tag, Leads-Bounded,
  start-Bounded,
}

-- The calls on a keyring and the log that it signs.
pub data Call (T P : Type 0) : Type 0 where
  adds : Text → List ℕ → Call T P
  activates : Text → Call T P
  appends : T → Text → P → ℕ → Text → Call T P

abbrev or_same : {A : Type 0} → A → Result AuditError A → A
or_same a (ok b) = b
or_same a (err x) = a

module _ {T P : Type 0} (f : Functions T P) where
  -- `append` with the active key that there is.
  abbrev pub appended_by :
      Option ActiveKey
      → T
      → Text
      → P
      → ℕ
      → Text
      → Keyring
      → List (SignedEvent T P)
      → List (SignedEvent T P)
  appended_by none type correlation_id payload occurred_at event_id r log = log
  appended_by (some k) type correlation_id payload occurred_at event_id r log =
      or_same log
        (append_signed f (some (provider k r)) type correlation_id payload occurred_at event_id log)

  -- What a call leaves; an error is caught by the caller.
  abbrev pub after : Call T P → Keyring × List (SignedEvent T P) → Keyring × List (SignedEvent T P)
  after (adds id key) (r, log) = ((add id key r).1, log)
  after (activates id) (r, log) = ((activate id r).1, log)
  after (appends type correlation_id payload occurred_at event_id) (r, log) =
      (r, appended_by (active_key r) type correlation_id payload occurred_at event_id r log)

  abbrev pub run :
      List (Call T P) → Keyring × List (SignedEvent T P) → Keyring × List (SignedEvent T P)
  run [] s = s
  run (c ∷ cs) s = run cs (after c s)

  -- The log verifies with a sound keyring.
  pub record IsKept (s : Keyring × List (SignedEvent T P)) : Type 0 where
    pub sound : IsSound s.0
    pub last : Position
    pub leads : Leads f (provider (key_of s.0 sound) s.0) start s.1 last

  IsKept-other :
      (r r' : Keyring) (log : List (SignedEvent T P))
      → IsSound r'
      → ((id : Text) (k : VerificationKey) → key_for id r ≡ some k → Still id k r')
      → IsKept (r, log)
      → IsKept (r', log)
  IsKept-other r r' log s still h = record {
    sound = s;
    last = h.last;
    leads =
        Leads-other f (provider (key_of r h.sound) r) (provider (key_of r' s) r') start h.last log
          (λ id v known.
            let w = still id v known in (w.later, w.stored, w.same_key, w.same_version))
          h.leads;
  }

  latest-after :
      (c : Call T P) (s : Keyring × List (SignedEvent T P))
      → IsSound s.0
      → (after c s).0.latest_key_version ≤ s.0.latest_key_version + 1
  latest-after (adds id key) (r, log) h = latest-add id key r
  latest-after (activates id) (r, log) h = latest-activate id r h
  latest-after (appends type correlation_id payload occurred_at event_id) (r, log) h = omega arith

  -- The event that `append` makes.
  abbrev signed_event :
      (r : Keyring) → IsSound r → AuditBody T P → List (SignedEvent T P) → SignedEvent T P
  signed_event r s body log = record {
    body = body;
    hash = f.digest body;
    authentication = some (new_authentication f (key_of r s) body (tag_of (tip none log)));
  }

  module _ (tagged : (key : List ℕ) (t : Text) → matches_tag (f.hmac key t) ≡ true) where
    tagged_by :
        (key : List ℕ) (n : ℕ) (hash id : Text) (v : ℕ) (tag : Text)
        → matches_tag (authentication_tag f key n hash id v tag) ≡ true
    unfolding authentication_tag
    tagged_by key n hash id v tag = tagged key _

    -- The authentication that `append` makes passes the tests of its form.
    new-is_authentication :
        (r : Keyring) (s : IsSound r) (body : AuditBody T P) (previous_tag : Text)
        → r.latest_key_version ≤ 9007199254740991
        → (previous_tag == authentication_genesis || matches_tag previous_tag) ≡ true
        → is_authentication (new_authentication f (key_of r s) body previous_tag) ≡ true
    unfolding is_authentication
    new-is_authentication r s body previous_tag small formed =
        let tag =
          tagged_by s.active.key body.sequence (f.digest body) r.active_key_id r.latest_key_version
            previous_tag in
        let valid = (s.entries r.active_key_id s.active s.stored).0 in
        ground (arith, tag, valid, s.positive, formed)

    -- The event that `append` makes follows the log.
    new-Follows :
        (r : Keyring) (s : IsSound r) (log : List (SignedEvent T P)) (last : Position)
        (body : AuditBody T P)
        → r.latest_key_version ≤ 9007199254740991
        → Leads f (provider (key_of r s) r) start log last
        → body.previous_hash ≡ tip_hash hash_genesis log
        → Follows f (provider (key_of r s) r) last (signed_event r s body log)
    new-Follows r s log last body small l linked =
        let p = provider (key_of r s) r in
        let b = Leads-Bounded f (key_of r s) r start last log s (start-Bounded f r s) l in
        let tags = Leads-tag f p start last log none refl l in
        record {
          authentication = new_authentication f (key_of r s) body (tag_of (tip none log));
          key = record {
            key_id = r.active_key_id;
            key_version = r.latest_key_version;
            key = s.active.key;
            status = s.active.status;
          };
          signed = refl;
          known = key_for-active r s;
          chained = linked ∙ sym (Leads-hash f p start last log l);
          hashed = refl;
          well_formed =
              new-is_authentication r s body (tag_of (tip none log)) small (rw (← tags) b.formed);
          tag_chained = sym tags;
          same_version = refl;
          not_older = b.not_newer;
          one_key = b.own;
          key_valid = (s.entries r.active_key_id s.active s.stored).0;
          authentic = rw tags refl;
        }

    append-signed :
        (r : Keyring) (s : IsSound r) (log : List (SignedEvent T P)) (type : T)
        (correlation_id : Text) (payload : P) (occurred_at : ℕ) (event_id : Text)
        → let body = next_body type correlation_id payload occurred_at event_id log in
          append_signed f
            (some (provider (key_of r s) r))
            type
            correlation_id
            payload
            occurred_at
            event_id
            log
          ≡ ok (log ++ signed_event r s body log ∷ [])
    unfolding append_signed
    append-signed r s log type correlation_id payload occurred_at event_id =
        rw (s.entries r.active_key_id s.active s.stored).0 refl

    append-IsKept :
        (r : Keyring) (log : List (SignedEvent T P)) (type : T) (correlation_id : Text)
        (payload : P) (occurred_at : ℕ) (event_id : Text)
        → r.latest_key_version ≤ 9007199254740991
        → IsKept (r, log)
        → IsKept (after (appends type correlation_id payload occurred_at event_id) (r, log))
    append-IsKept r log type correlation_id payload occurred_at event_id small h =
        let body = next_body type correlation_id payload occurred_at event_id log in
        let w = new-Follows r h.sound log h.last body small h.leads refl in
        let p = provider (key_of r h.sound) r in
        let e = signed_event r h.sound body log in
        let added = append-signed r h.sound log type correlation_id payload occurred_at event_id in
        rw (active-of-IsSound r h.sound, added)
          (record {
            sound = h.sound;
            last = past f e w.authentication;
            leads = Leads-append f p start h.last log e w h.leads;
          })

    after-IsKept :
        (c : Call T P) (s : Keyring × List (SignedEvent T P))
        → s.0.latest_key_version ≤ 9007199254740991
        → IsKept s
        → IsKept (after c s)
    after-IsKept (adds id key) (r, log) small h =
        IsKept-other r (add id key r).1 log (add-IsSound id key r h.sound)
          (λ j k. add-Still j k id key r) h
    after-IsKept (activates id) (r, log) small h =
        IsKept-other r (activate id r).1 log (activate-IsSound id r h.sound)
          (λ j k. activate-Still j k id r h.sound) h
    after-IsKept (appends type correlation_id payload occurred_at event_id) (r, log) small h =
        append-IsKept r log type correlation_id payload occurred_at event_id small h

    run-IsKept :
        (cs : List (Call T P)) (s : Keyring × List (SignedEvent T P))
        → s.0.latest_key_version + length cs ≤ 9007199254740991
        → IsKept s
        → IsKept (run cs s)
    run-IsKept [] s small h = h
    run-IsKept (c ∷ cs) s small h =
        run-IsKept cs (after c s) (omega (arith, small, latest-after c s h.sound))
          (after-IsKept c s (omega (arith, small)) h)

  empty-IsKept : (r : Keyring) → IsSound r → IsKept (r, [])
  empty-IsKept r s = record { sound = s; last = start; leads = arrived start }

  -- After any additions and activations of keys and appended events, from a new keyring and an empty
  -- log, the log verifies with the keyring as it is then.
  pub verify_signed-run :
      (keys : List (Text × List ℕ)) (active_id : Text) (r : Keyring) (cs : List (Call T P))
      → ((key : List ℕ) (t : Text) → matches_tag (f.hmac key t) ≡ true)
      → construct keys active_id no_keyring ≡ (ok tt, r)
      → length cs < 9007199254740991
      → let s = run cs (r, []) in
        (k : ActiveKey) × (active_key s.0 ≡ some k)
        × (verify_signed f (some (provider k s.0)) s.1 ≡ ok true)
  verify_signed-run keys active_id r cs tagged made few =
      let (sound, first) = construct-IsSound keys active_id r made in
      let h = run-IsKept tagged cs (r, []) (omega (arith, few, first)) (empty-IsKept r sound) in
      let s = run cs (r, []) in
      (
        key_of s.0 h.sound,
        active-of-IsSound s.0 h.sound,
        (verify_signed-iff-Leads f (provider (key_of s.0 h.sound) s.0) s.1).1 (h.last, h.leads),
      )
