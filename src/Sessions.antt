-- ===== src/Sessions.antt =====
-- packages/security/sessionBoundary.ts. The clock, the random tokens and the SHA-256 digest are
-- parameters; a finite instant is a natural number. A principal's roles are their names.
pub mod Limits
pub mod Lifetime
use contactless_airlock_lab.Prelude.{
  ◌≡◌, ℕ, ◌+◌, ◌*◌, Bool, true, false, not, ◌&&◌, ◌||◌, Option, none, some, List, [], ◌∷◌, ◌++◌,
  Text, text, Map, all, leb, ltb, length, keep, min, is_empty, matches_id, Eq, ◌==◌, text_Eq, any,
  if◌then◌else◌, get_or, lookup, insert, erase, has, values, Exec, ◌>>=◌, ◌>>◌, pure, gets, modify,
  guard, raise,
}

-- AuthenticatedPrincipal
pub record Principal : Type 0 where
  pub principal_id : Text
  pub tenant_id : Text
  pub roles : List Text

pub record BootstrapCredential : Type 0 where
  pub token : Text
  pub principal : Principal

-- AuthenticatedSession
pub record Session : Type 0 where
  pub session_id : Text
  pub csrf_token : Text
  pub principal : Principal
  pub created_at : ℕ
  pub last_seen_at : ℕ
  pub expires_at : ℕ

-- The bounds of SessionBoundaryOptions, with their defaults filled in.
pub record Bounds : Type 0 where
  pub absolute_ttl_ms : ℕ
  pub idle_ttl_ms : ℕ
  pub max_sessions : ℕ
  pub max_sessions_per_principal : ℕ

abbrev pub default_bounds : Bounds
default_bounds = record {
  absolute_ttl_ms = 8 * 60 * 60000;
  idle_ttl_ms = 30 * 60000;
  max_sessions = 1000;
  max_sessions_per_principal = 5;
}

pub record StoredCredential : Type 0 where
  pub digest : Text
  pub principal : Principal

pub record SessionBoundary : Type 0 where
  pub bounds : Bounds
  pub credentials : List StoredCredential
  pub sessions : Map Text Session

pub data SessionError : Type 0 where
  invalid_bounds : SessionError
  invalid_credential : SessionError
  duplicate_credential : SessionError
  invalid_principal : SessionError
  session_limit : SessionError
  identity_expired : SessionError

abbrev pub Op : Type 0 → Type 0
Op = Exec SessionError SessionBoundary

-- ALLOWED_ROLES
abbrev pub is_allowed_role : Text → Bool
is_allowed_role role = role == text "operator" || role == text "viewer"

-- The test of a principal that the constructor and `issue` share.
unfoldable pub is_principal : Principal → Bool
is_principal p =
    matches_id p.principal_id
    && matches_id p.tenant_id
    && elim p.roles [ [] ↦ false | role ∷ roles ↦ all is_allowed_role p.roles ]

-- Number.isSafeInteger(value) && value > 0
abbrev is_bound : ℕ → Bool
is_bound n = ltb 0 n && leb n 9007199254740991

abbrev pub are_bounds : Bounds → Bool
are_bounds b =
    is_bound b.absolute_ttl_ms
    && is_bound b.idle_ttl_ms
    && is_bound b.max_sessions
    && is_bound b.max_sessions_per_principal

-- The constructor's loop over the credentials, with the digests seen so far.
unfoldable pub add_credentials : (Text → Text) → List BootstrapCredential → Op (Unit {0})
add_credentials sha256 [] = pure tt
add_credentials sha256 (c ∷ cs) = do
  guard (leb 32 (length c.token) && is_principal c.principal) invalid_credential
  seen ← gets (λ s. any (λ d. d.digest == sha256 c.token) s.credentials)
  guard (not seen) duplicate_credential
  modify λ s. record s {
    credentials = s.credentials ++ record { digest = sha256 c.token; principal = c.principal } ∷ [];
  }
  add_credentials sha256 cs

-- The constructor, on a boundary that holds the bounds only.
unfoldable pub construct : (Text → Text) → List BootstrapCredential → Op (Unit {0})
construct sha256 credentials = do
  valid ← gets (λ s. are_bounds s.bounds)
  guard valid invalid_bounds
  add_credentials sha256 credentials

-- `now >= expiresAt || now - lastSeenAt >= idleTtlMs`
abbrev pub is_over : ℕ → ℕ → Session → Bool
is_over now idle s = leb s.expires_at now || leb (s.last_seen_at + idle) now

-- The entries that `#prune` leaves.
abbrev pub pruned : ℕ → ℕ → Map Text Session → Map Text Session
pruned now idle m = keep (λ e. not (is_over now idle e.1)) m

abbrev pub is_of : Principal → Session → Bool
is_of p s = s.principal.principal_id == p.principal_id && s.principal.tenant_id == p.tenant_id

-- [...sessions.values()].filter(...).length
abbrev pub count_of : Principal → Map Text Session → ℕ
count_of p m = length (keep (λ e. is_of p e.1) m)

-- Math.min(now + absoluteTtlMs, maximumExpiresAt ?? Infinity)
abbrev pub expiry : ℕ → ℕ → Option ℕ → ℕ
expiry now ttl none = now + ttl
expiry now ttl (some limit) = min (now + ttl) limit

unfoldable pub issue : Principal → Option ℕ → ℕ → Text → Text → Op Session
issue principal maximum now session_id csrf_token = do
  guard (is_principal principal) invalid_principal
  modify λ s. record s { sessions = pruned now s.bounds.idle_ttl_ms s.sessions }
  room ← gets λ s.
      ltb (length s.sessions) s.bounds.max_sessions
      && ltb (count_of principal s.sessions) s.bounds.max_sessions_per_principal
  guard room session_limit
  ttl ← gets (λ s. s.bounds.absolute_ttl_ms)
  guard (ltb now (expiry now ttl maximum)) identity_expired
  let session : Session = record {
    session_id = session_id;
    csrf_token = csrf_token;
    principal = principal;
    created_at = now;
    last_seen_at = now;
    expires_at = expiry now ttl maximum;
  }
  modify λ s. record s { sessions = insert session_id session s.sessions }
  pure session

-- The loop of `login`: the last credential whose digest is the candidate's.
unfoldable pub matching_principal :
    Text → Option Principal → List StoredCredential → Option Principal
matching_principal candidate found [] = found
matching_principal candidate found (c ∷ cs) =
    matching_principal candidate (if c.digest == candidate then some c.principal else found) cs

unfoldable pub login_as : Option Principal → ℕ → Text → Text → Op (Option Session)
login_as none now session_id csrf_token = pure none
login_as (some p) now session_id csrf_token = do
  session ← issue p none now session_id csrf_token
  pure (some session)

unfoldable pub login : (Text → Text) → Text → ℕ → Text → Text → Op (Option Session)
login sha256 bearer_token now session_id csrf_token = do
  principal ← gets (λ s. matching_principal (sha256 bearer_token) none s.credentials)
  login_as principal now session_id csrf_token

unfoldable pub authenticate : Text → ℕ → SessionBoundary → Option Session × SessionBoundary
authenticate session_id now s = elim (lookup session_id s.sessions) [
  | none ↦ (none, s)
  | some session ↦
      if is_over now s.bounds.idle_ttl_ms session
      then (none, record s { sessions = erase session_id s.sessions })
      else (let seen = record session { last_seen_at = now } in
          (some seen, record s { sessions = insert session_id seen s.sessions }))
]

unfoldable pub verify_csrf : Session → Option Text → Bool
verify_csrf session none = false
verify_csrf session (some value) = not (is_empty value) && session.csrf_token == value

unfoldable pub revoke : Text → SessionBoundary → Bool × SessionBoundary
revoke session_id s =
    (has session_id s.sessions, record s { sessions = erase session_id s.sessions })
