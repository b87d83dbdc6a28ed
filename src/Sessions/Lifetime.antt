-- ===== src/Sessions/Lifetime.antt =====
-- packages/security/sessionBoundary.ts: how long a session authenticates.
use contactless_airlock_lab.Prelude.{
  ◌≡◌, ◌≢◌, refl, sym, ◌∙◌, ℕ, ◌≤◌, ◌<◌, Bool, true, not, Option, none, List, [], ◌∷◌, Text, Map,
  arith, All, keep, ok, text_Eq, text_eq_iff, lookup, insert, erase, All-insert, All-lookup,
  Bool-cases, Option-cases, inl, inr, ◌==◌, ◌>>=◌,
}
use contactless_airlock_lab.Sessions.{
  Principal, Session, SessionBoundary, is_over, expiry, issue, matching_principal, login,
  authenticate, revoke,
}
use contactless_airlock_lab.Sessions.Limits.{
  Call, issues, logs_in, authenticates, revokes, after, run, Issued, refused, only_pruned, added,
  issue-Issued, new_session, after_prune, login_state, authenticate_missing, authenticate_over,
  authenticate_live,
}

-- The call issues no session under the id: ids are random.
abbrev pub IsOther : Text → Call → Type 0
IsOther id (issues p maximum now other csrf) = other ≢ id
IsOther id (logs_in sha256 token now other csrf) = other ≢ id
IsOther id (authenticates other now) = Unit
IsOther id (revokes other) = Unit

module _ (id : Text) (limit : ℕ) where
  -- A session under the id expires by the limit.
  abbrev IsEnding : Text × Session → Type 0
  IsEnding e = e.0 ≡ id → e.1.expires_at ≤ limit

  All-keep :
      (f : Text × Session → Bool) (m : Map Text Session) → All IsEnding m → All IsEnding (keep f m)
  All-keep f [] a = tt
  All-keep f (e ∷ m) a = elim (Bool-cases (f e)) [
    | inl kept ↦ rw kept (a.0, All-keep f m a.1)
    | inr dropped ↦ rw dropped (All-keep f m a.1)
  ]

  All-erase : (j : Text) (m : Map Text Session) → All IsEnding m → All IsEnding (erase j m)
  unfolding erase
  All-erase j [] a = tt
  All-erase j ((i, x) ∷ m) a = elim (Bool-cases (i == j)) [
    | inl same ↦ rw same (All-erase j m a.1)
    | inr other ↦ rw other (a.0, All-erase j m a.1)
  ]

  All-absent : (m : Map Text Session) → lookup id m ≡ none → All IsEnding m
  unfolding lookup
  All-absent [] h = tt
  All-absent ((i, x) ∷ m) h = elim (Bool-cases (i == id)) [
    | inl same ↦ absurd (ground arith)
    | inr other ↦ ((λ e. absurd (ground (arith, text_eq_iff i id))), All-absent m (rw other at h))
  ]

  insert_other :
      (j : Text) (x : Session) (m : Map Text Session)
      → j ≢ id
      → All IsEnding m
      → All IsEnding (insert j x m)
  insert_other j x m ne a = All-insert IsEnding j x m (λ i same e. absurd (ne (sym same ∙ e))) a

  Issued-ends :
      (p : Principal) (maximum : Option ℕ) (now : ℕ) (j csrf : Text) (s s' : SessionBoundary)
      → j ≢ id
      → All IsEnding s.sessions
      → Issued p maximum now j csrf s s'
      → All IsEnding s'.sessions
  Issued-ends p maximum now j csrf s s' ne a (refused e) = rw e a
  Issued-ends p maximum now j csrf s s' ne a (only_pruned e) = rw e (All-keep _ s.sessions a)
  Issued-ends p maximum now j csrf s s' ne a (added e room own) = rw e (
      insert_other j (new_session p maximum now j csrf s.bounds.absolute_ttl_ms)
        (after_prune now s).sessions ne (All-keep _ s.sessions a))

  authenticate-ends :
      (j : Text) (now : ℕ) (s : SessionBoundary)
      → All IsEnding s.sessions
      → All IsEnding (authenticate j now s).1.sessions
  authenticate-ends j now s a = elim (Option-cases (lookup j s.sessions)) [
    | inl missing ↦ rw (authenticate_missing j now s missing) a
    | inr (x, found) ↦ elim (Bool-cases (is_over now s.bounds.idle_ttl_ms x)) [
      | inl over ↦ rw (authenticate_over j now s x found over) (All-erase j s.sessions a)
      | inr live ↦ rw (authenticate_live j now s x found live) (
          All-insert IsEnding j (record x { last_seen_at = now }) s.sessions
            (λ i same e. All-lookup IsEnding j x s.sessions a found (sym same ∙ e)) a)
    ]
  ]

  after-ends :
      (c : Call) (s : SessionBoundary)
      → IsOther id c
      → All IsEnding s.sessions
      → All IsEnding (after c s).sessions
  unfolding login revoke ◌>>=◌
  after-ends (issues p maximum now j csrf) s ne a =
      Issued-ends p maximum now j csrf s _ ne a (issue-Issued p maximum now j csrf s)
  after-ends (logs_in sha256 token now j csrf) s ne a =
      elim (login_state (matching_principal (sha256 token) none s.credentials) now j csrf s) [
        | inl same ↦ rw same a
        | inr (p, as_issue) ↦
            rw as_issue (Issued-ends p none now j csrf s _ ne a (issue-Issued p none now j csrf s))
      ]
  after-ends (authenticates j now) s o a = authenticate-ends j now s a
  after-ends (revokes j) s o a = All-erase j s.sessions a

  run-ends :
      (cs : List Call) (s : SessionBoundary)
      → All (IsOther id) cs
      → All IsEnding s.sessions
      → All IsEnding (run cs s).sessions
  run-ends [] s o a = a
  run-ends (c ∷ cs) s o a = run-ends cs (after c s) o.1 (after-ends c s o.0 a)

  none_at_end :
      (now : ℕ) (s : SessionBoundary)
      → All IsEnding s.sessions
      → limit ≤ now
      → (authenticate id now s).0 ≡ none
  none_at_end now s a late = elim (Option-cases (lookup id s.sessions)) [
    | inl missing ↦ rw (authenticate_missing id now s missing) refl
    | inr (x, found) ↦
        let ended = All-lookup IsEnding id x s.sessions a found refl in
        let over : is_over now s.bounds.idle_ttl_ms x ≡ true = ground (arith, ended) in
        rw (authenticate_over id now s x found over) refl
  ]

issued_session :
    (p : Principal) (maximum : Option ℕ) (now : ℕ) (id csrf : Text) (x : Session)
    (s s' : SessionBoundary)
    → issue p maximum now id csrf s ≡ (ok x, s')
    → (x ≡ new_session p maximum now id csrf s.bounds.absolute_ttl_ms)
      × (now < x.expires_at)
      × (s'.sessions ≡ insert id x (after_prune now s).sessions)
unfolding issue ◌>>=◌
issued_session p maximum now id csrf x s s' h = (ground arith, ground arith, ground arith)

-- A session that `issue` returned, under an id that was free and that no later call issues a
-- session under, does not authenticate from the earlier of two instants on, whatever is called
-- between: the end of the absolute lifetime, and the maximal instant that was given, if one was.
pub expired_never_authenticates :
    (p : Principal) (maximum : Option ℕ) (now : ℕ) (id csrf : Text) (x : Session)
    (s s' : SessionBoundary) (cs : List Call) (later : ℕ)
    → lookup id s.sessions ≡ none
    → issue p maximum now id csrf s ≡ (ok x, s')
    → All (IsOther id) cs
    → expiry now s.bounds.absolute_ttl_ms maximum ≤ later
    → (authenticate id later (run cs s')).0 ≡ none
expired_never_authenticates p maximum now id csrf x s s' cs later new h o late =
    let limit = expiry now s.bounds.absolute_ttl_ms maximum in
    let i = issued_session p maximum now id csrf x s s' h in
    let old =
      All-keep id limit (λ (e : Text × Session). not (is_over now s.bounds.idle_ttl_ms e.1))
        s.sessions (All-absent id limit s.sessions new) in
    none_at_end id limit later (run cs s')
      (run-ends id limit cs s' o
        (rw i.2 (All-insert (IsEnding id limit) id x _ (λ j _ _. rw i.0 (omega arith)) old)))
      late
