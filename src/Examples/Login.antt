-- ===== src/Examples/Login.antt =====
-- packages/security/sessionBoundary.ts: runs of the session boundary.
use contactless_airlock_lab.Prelude.{
  ◌≡◌, refl, text, text_Eq, text_eq, matches_id, matches_id_up_to, none, some, List, [], ◌∷◌, ok,
  lookup, insert, ◌>>=◌, All, arith,
}
use contactless_airlock_lab.Sessions.{
  Principal, Session, SessionBoundary, default_bounds, is_principal, issue, authenticate,
}
use contactless_airlock_lab.Sessions.Limits.{
  Call, issues, authenticates, run, IsWithin, run-IsWithin,
}
use contactless_airlock_lab.Sessions.Lifetime.{IsOther, expired_never_authenticates}

abbrev principal : Principal
principal = record {
  principal_id = text "operator-a";
  tenant_id = text "tenant-a";
  roles = text "operator" ∷ [];
}

abbrev boundary : SessionBoundary
boundary = record { bounds = default_bounds; credentials = []; sessions = [] }

abbrev session : Session
session = record {
  session_id = text "session-a";
  csrf_token = text "csrf-a";
  principal = principal;
  created_at = 1000000;
  last_seen_at = 1000000;
  expires_at = 1500000;
}

abbrev session_calls : List Call
session_calls =
    authenticates (text "session-a") 1200000
    ∷ issues principal none 1300000 (text "session-b") (text "csrf-b")
    ∷ authenticates (text "session-a") 1400000
    ∷ []

boundary-IsWithin : IsWithin boundary
boundary-IsWithin = record { total = omega arith; each = λ p. omega arith }

run-IsWithin_example : IsWithin (run session_calls boundary)
run-IsWithin_example = run-IsWithin session_calls boundary boundary-IsWithin

abbrev with_session : SessionBoundary
with_session =
    (issue principal (some 1500000) 1000000 (text "session-a") (text "csrf-a") boundary).1

issues_session :
    issue principal (some 1500000) 1000000 (text "session-a") (text "csrf-a") boundary
    ≡ (ok session, with_session)
unfolding issue is_principal matches_id matches_id_up_to insert text_eq ◌>>=◌
issues_session = refl

none_before : lookup (text "session-a") boundary.sessions ≡ none
unfolding lookup
none_before = refl

session_calls-IsOther : All (IsOther (text "session-a")) session_calls
session_calls-IsOther = (tt, (λ e. absurd (ground arith), (tt, tt)))

-- The session was seen just before, and is over all the same.
expired_never_authenticates_example :
    (authenticate (text "session-a") 1500000 (run session_calls with_session)).0 ≡ none
expired_never_authenticates_example =
    expired_never_authenticates principal (some 1500000) 1000000 (text "session-a") (text "csrf-a")
      session boundary with_session session_calls 1500000 none_before issues_session
      session_calls-IsOther (omega arith)
