-- ===== src/Sessions/Limits.antt =====
-- packages/security/sessionBoundary.ts: the limits on the number of sessions.
use contactless_airlock_lab.Prelude.{
  ◌≡◌, refl, sym, ℕ, suc, ◌+◌, ◌≤◌, ◌<◌, Bool, true, false, not, ◌&&◌, Option, none, some, List, [],
  ◌∷◌, Text, Map, arith, ltb, length, keep, length-keep-le, text_Eq, text_eq_iff, lookup, insert,
  erase, Bool-cases, ◌⊎◌, inl, inr, Option-cases, ◌==◌, if◌then◌else◌, ◌>>=◌,
}
use contactless_airlock_lab.Sessions.{
  Principal, Session, SessionBoundary, is_of, count_of, is_over, is_principal, pruned, expiry,
  issue, matching_principal, login_as, login, authenticate, revoke,
}

-- The calls that change the sessions.
pub data Call : Type 0 where
  issues : Principal → Option ℕ → ℕ → Text → Text → Call
  logs_in : (Text → Text) → Text → ℕ → Text → Text → Call
  authenticates : Text → ℕ → Call
  revokes : Text → Call

-- The boundary that a call leaves; an error is caught by the caller.
abbrev pub after : Call → SessionBoundary → SessionBoundary
after (issues p maximum now id csrf) s = (issue p maximum now id csrf s).1
after (logs_in sha256 token now id csrf) s = (login sha256 token now id csrf s).1
after (authenticates id now) s = (authenticate id now s).1
after (revokes id) s = (revoke id s).1

abbrev pub run : List Call → SessionBoundary → SessionBoundary
run [] s = s
run (c ∷ cs) s = run cs (after c s)

pub record IsWithin (s : SessionBoundary) : Type 0 where
  pub total : length s.sessions ≤ s.bounds.max_sessions
  pub each : (p : Principal) → count_of p s.sessions ≤ s.bounds.max_sessions_per_principal

length-insert-le :
    (id : Text) (x : Session) (m : Map Text Session) → length (insert id x m) ≤ suc (length m)
unfolding insert
length-insert-le id x [] = omega arith
length-insert-le id x ((j, y) ∷ m) = ground (arith, length-insert-le id x m)

length-replace :
    (id : Text) (x y : Session) (m : Map Text Session)
    → lookup id m ≡ some y
    → length (insert id x m) ≡ length m
unfolding insert lookup
length-replace id x y [] h = absurd (ground arith)
length-replace id x y ((j, z) ∷ m) h = ground (arith, length-replace id x y m)

length-erase-le : (id : Text) (m : Map Text Session) → length (erase id m) ≤ length m
unfolding erase
length-erase-le id [] = omega arith
length-erase-le id ((j, y) ∷ m) = ground (arith, length-erase-le id m)

module _ (p : Principal) where
  count_of-insert-le :
      (id : Text) (x : Session) (m : Map Text Session)
      → count_of p (insert id x m) ≤ count_of p m + (if is_of p x then 1 else 0)
  unfolding insert
  count_of-insert-le id x [] = ground arith
  count_of-insert-le id x ((j, y) ∷ m) = ground (arith, count_of-insert-le id x m)

  count_of-replace :
      (id : Text) (x y : Session) (m : Map Text Session)
      → lookup id m ≡ some y
      → is_of p x ≡ is_of p y
      → count_of p (insert id x m) ≡ count_of p m
  unfolding insert lookup
  count_of-replace id x y [] h same = absurd (ground arith)
  count_of-replace id x y ((j, z) ∷ m) h same = ground (arith, count_of-replace id x y m)

  count_of-erase-le : (id : Text) (m : Map Text Session) → count_of p (erase id m) ≤ count_of p m
  unfolding erase
  count_of-erase-le id [] = omega arith
  count_of-erase-le id ((j, y) ∷ m) = ground (arith, count_of-erase-le id m)

  count_of-keep-le :
      (f : Text × Session → Bool) (m : Map Text Session) → count_of p (keep f m) ≤ count_of p m
  count_of-keep-le f [] = omega arith
  count_of-keep-le f (e ∷ m) = ground (arith, count_of-keep-le f m)

count_of_same :
    (p q : Principal) (m : Map Text Session)
    → p.principal_id ≡ q.principal_id
    → p.tenant_id ≡ q.tenant_id
    → count_of q m ≡ count_of p m
count_of_same p q m a b i = length (
    keep
      (λ (e : Text × Session).
        e.1.principal.principal_id == sym a i && e.1.principal.tenant_id == sym b i)
      m)

prune-IsWithin :
    (now idle : ℕ) (s : SessionBoundary)
    → IsWithin s
    → IsWithin (record s { sessions = pruned now idle s.sessions })
prune-IsWithin now idle s w = record {
  total = omega (
    arith,
    length-keep-le (λ (e : Text × Session). not (is_over now idle e.1)) s.sessions,
    w.total,
  );
  each =
      λ p. omega (arith, count_of-keep-le p (λ e. not (is_over now idle e.1)) s.sessions, w.each p);
}

-- A session that is added where there is room.
insert-IsWithin :
    (id : Text) (x : Session) (s : SessionBoundary)
    → IsWithin s
    → length s.sessions < s.bounds.max_sessions
    → count_of x.principal s.sessions < s.bounds.max_sessions_per_principal
    → IsWithin (record s { sessions = insert id x s.sessions })
insert-IsWithin id x s w room own = record {
  total = omega (arith, length-insert-le id x s.sessions, room);
  each = λ p. elim (Bool-cases (is_of p x)) [
    | inl mine ↦
        let a : x.principal.principal_id ≡ p.principal_id =
          ground (arith, text_eq_iff x.principal.principal_id p.principal_id) in
        let b : x.principal.tenant_id ≡ p.tenant_id =
          ground (arith, text_eq_iff x.principal.tenant_id p.tenant_id) in
        ground
          (arith, count_of-insert-le p id x s.sessions, count_of_same x.principal p s.sessions a b)
    | inr other ↦ ground (arith, count_of-insert-le p id x s.sessions, w.each p)
  ];
}

abbrev pub new_session : Principal → Option ℕ → ℕ → Text → Text → ℕ → Session
new_session p maximum now id csrf ttl = record {
  session_id = id;
  csrf_token = csrf;
  principal = p;
  created_at = now;
  last_seen_at = now;
  expires_at = expiry now ttl maximum;
}

abbrev pub after_prune : ℕ → SessionBoundary → SessionBoundary
after_prune now s = record s { sessions = pruned now s.bounds.idle_ttl_ms s.sessions }

-- The state that `issue` leaves.
pub data Issued (p : Principal) (maximum : Option ℕ) (now : ℕ) (id csrf : Text)
    (s s' : SessionBoundary) : Type 0 where
  refused : s' ≡ s → Issued p maximum now id csrf s s'
  only_pruned : s' ≡ after_prune now s → Issued p maximum now id csrf s s'
  added :
      s' ≡ record (after_prune now s) {
        sessions =
            insert id
              (new_session p maximum now id csrf s.bounds.absolute_ttl_ms)
              (after_prune now s).sessions;
      }
      → length (after_prune now s).sessions < s.bounds.max_sessions
      → count_of p (after_prune now s).sessions < s.bounds.max_sessions_per_principal
      → Issued p maximum now id csrf s s'

module _ (p : Principal) (maximum : Option ℕ) (now : ℕ) (id csrf : Text) where
  pub issue-Issued :
      (s : SessionBoundary) → Issued p maximum now id csrf s (issue p maximum now id csrf s).1
  unfolding issue ◌>>=◌
  issue-Issued s = elim (Bool-cases (is_principal p)) [
    | inr bad ↦ refused (ground arith)
    | inl good ↦
        let u = after_prune now s in
        elim (Bool-cases (
          ltb (length u.sessions) s.bounds.max_sessions
          && ltb (count_of p u.sessions) s.bounds.max_sessions_per_principal)) [
            | inr full ↦ only_pruned (ground arith)
            | inl room ↦ elim (Bool-cases (ltb now (expiry now s.bounds.absolute_ttl_ms maximum))) [
              | inr late ↦ only_pruned (ground arith)
              | inl soon ↦ added (ground arith) (ground arith) (ground arith)
            ]
          ]
  ]

  Issued-IsWithin :
      (s s' : SessionBoundary) → IsWithin s → Issued p maximum now id csrf s s' → IsWithin s'
  Issued-IsWithin s s' w (refused e) = rw e w
  Issued-IsWithin s s' w (only_pruned e) = rw e (prune-IsWithin now s.bounds.idle_ttl_ms s w)
  Issued-IsWithin s s' w (added e room own) = rw e (
      insert-IsWithin id (new_session p maximum now id csrf s.bounds.absolute_ttl_ms)
        (after_prune now s) (prune-IsWithin now s.bounds.idle_ttl_ms s w) room own)

module _ (id : Text) (now : ℕ) (s : SessionBoundary) where
  pub authenticate_missing : lookup id s.sessions ≡ none → authenticate id now s ≡ (none, s)
  unfolding authenticate
  authenticate_missing h = ground arith

  pub authenticate_over :
      (x : Session)
      → lookup id s.sessions ≡ some x
      → is_over now s.bounds.idle_ttl_ms x ≡ true
      → authenticate id now s ≡ (none, record s { sessions = erase id s.sessions })
  unfolding authenticate
  authenticate_over x h over = ground arith

  pub authenticate_live :
      (x : Session)
      → lookup id s.sessions ≡ some x
      → is_over now s.bounds.idle_ttl_ms x ≡ false
      → let seen : Session = record x { last_seen_at = now } in
        authenticate id now s ≡ (some seen, record s { sessions = insert id seen s.sessions })
  unfolding authenticate
  authenticate_live x h live = ground arith

pub login_state :
    (o : Option Principal) (now : ℕ) (id csrf : Text) (s : SessionBoundary)
    → ((login_as o now id csrf s).1 ≡ s)
      ⊎ ((p : Principal) × ((login_as o now id csrf s).1 ≡ (issue p none now id csrf s).1))
unfolding login_as ◌>>=◌
login_state none now id csrf s = inl refl
login_state (some p) now id csrf s = inr (p, ground arith)

authenticate-IsWithin :
    (id : Text) (now : ℕ) (s : SessionBoundary) → IsWithin s → IsWithin (authenticate id now s).1
authenticate-IsWithin id now s w = elim (Option-cases (lookup id s.sessions)) [
  | inl missing ↦ rw (authenticate_missing id now s missing) w
  | inr (x, found) ↦
      let seen : Session = record x { last_seen_at = now } in
      elim (Bool-cases (is_over now s.bounds.idle_ttl_ms x)) [
        | inl over ↦ rw (authenticate_over id now s x found over) (record {
          total = omega (arith, length-erase-le id s.sessions, w.total);
          each = λ p. omega (arith, count_of-erase-le p id s.sessions, w.each p);
        })
        | inr live ↦ rw (authenticate_live id now s x found live) (record {
          total = omega (arith, length-replace id seen x s.sessions found, w.total);
          each = λ p. omega (arith, count_of-replace p id seen x s.sessions found refl, w.each p);
        })
      ]
]

after-IsWithin : (c : Call) (s : SessionBoundary) → IsWithin s → IsWithin (after c s)
unfolding login revoke ◌>>=◌
after-IsWithin (issues p maximum now id csrf) s w =
    Issued-IsWithin p maximum now id csrf s _ w (issue-Issued p maximum now id csrf s)
after-IsWithin (logs_in sha256 token now id csrf) s w =
    elim (login_state (matching_principal (sha256 token) none s.credentials) now id csrf s) [
      | inl same ↦ rw same w
      | inr (p, as_issue) ↦
          rw as_issue (Issued-IsWithin p none now id csrf s _ w (issue-Issued p none now id csrf s))
    ]
after-IsWithin (authenticates id now) s w = authenticate-IsWithin id now s w
after-IsWithin (revokes id) s w = record {
  total = omega (arith, length-erase-le id s.sessions, w.total);
  each = λ p. omega (arith, count_of-erase-le p id s.sessions, w.each p);
}

-- If a boundary holds no more sessions than its limit, nor more of any principal of a tenant than
-- the limit for one principal, that is so after whatever calls of issue, login, authenticate and
-- revoke.
pub run-IsWithin : (cs : List Call) (s : SessionBoundary) → IsWithin s → IsWithin (run cs s)
run-IsWithin [] s w = w
run-IsWithin (c ∷ cs) s w = run-IsWithin cs (after c s) (after-IsWithin c s w)
