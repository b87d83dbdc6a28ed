-- ===== src/Examples/Store.antt =====
-- Runs of the challenge store, the canonical form, the transitions and the audit log.
use contactless_airlock_lab.Prelude.{
  ◌≡◌, refl, ◌↔◌, ◌⊎◌, ℕ, ◌≤◌, true, Text, text, text_Eq, text_eq, suc, none, some, List, [], ◌∷◌,
  ok, err, lookup, insert, length, ◌>>=◌, All, arith,
}
use native.Mathlib.Decide.{ℕ_discrete}
use contactless_airlock_lab.Protocol.{
  ChallengeRecord, created, confirmed, challenge_expired, consumed_before_issuance,
  TransactionState, received, confirmation_pending, clearing_received, settled, ProvisioningState,
  requested, risk_scored, approved, token_active_capped,
}
use contactless_airlock_lab.Protocol.Canonical.{
  canonicalize_binding, ordered_fields, common_tests, validate_binding, collect, field_value,
  Fields-discrete,
}
use contactless_airlock_lab.Protocol.Binding.{canonicalize-injective}
use contactless_airlock_lab.Transitions.{transition_transaction, transition_provisioning}
use contactless_airlock_lab.Transitions.Lifecycle.{
  Occurs, IsHistory, IsProvisioningHistory, history_bounded, provisioning_history_bounded,
  settled_needs_clearing,
}
use contactless_airlock_lab.Crypto.{approval_algorithm, verify_approval}
use contactless_airlock_lab.Challenges.{consume, restore, snapshot, cancel}
use contactless_airlock_lab.Challenges.OneUse.{
  Call, IsOther, consumes, cancels, run, confirmations, confirmed_at_most_once, terminal-run,
}
use contactless_airlock_lab.Challenges.Consumption.{
  Consumed, consume-iff-Consumed, Refused, consume-Refused,
}
use contactless_airlock_lab.Challenges.Snapshots.{
  IsSound, restore-snapshot, cancel-IsSound, consume-IsSound,
}
use contactless_airlock_lab.Challenges.Clocks.{consumed_early}
use contactless_airlock_lab.Audit.{AuditBody, AuditLog, append, verify}
use contactless_airlock_lab.Audit.Chain.{verify-append, last_hash-determines}
use contactless_airlock_lab.Examples.{example_crypto, pem, challenge_id, binding, approval, issued}

abbrev done : ChallengeRecord
done = record { binding = binding; status = confirmed; consumed_at = some 1000500 }

consumed :
    consume example_crypto approval pem 1000500 approval_algorithm issued
    ≡ (ok done, (challenge_id, done) ∷ [])
unfolding consume canonicalize_binding validate_binding common_tests ordered_fields collect
    field_value Fields-discrete verify_approval lookup insert text_eq ◌>>=◌ ℕ_discrete
consumed = refl

consume-iff-Consumed_example :
    (consume example_crypto approval pem 1000500 approval_algorithm issued
      ≡ (ok done, (challenge_id, done) ∷ []))
    ↔ Consumed example_crypto approval pem 1000500 approval_algorithm issued done
        ((challenge_id, done) ∷ [])
consume-iff-Consumed_example =
    consume-iff-Consumed example_crypto approval pem 1000500 approval_algorithm issued
      ((challenge_id, done) ∷ []) done

late : consume example_crypto approval pem 1120000 approval_algorithm issued ≡ (
  err challenge_expired,
  (consume example_crypto approval pem 1120000 approval_algorithm issued).1,
)
unfolding consume canonicalize_binding validate_binding common_tests ordered_fields collect
    field_value Fields-discrete verify_approval lookup insert text_eq ◌>>=◌ ℕ_discrete
late = refl

consume-Refused_example :
    Refused example_crypto approval pem 1120000 approval_algorithm challenge_expired issued
      (consume example_crypto approval pem 1120000 approval_algorithm issued).1
consume-Refused_example =
    consume-Refused example_crypto approval pem 1120000 approval_algorithm challenge_expired issued
      (consume example_crypto approval pem 1120000 approval_algorithm issued).1 late

abbrev two_uses : List Call
two_uses =
    cancels (text "challenge-b") 1000400
    ∷ consumes approval pem 1000500 approval_algorithm
    ∷ consumes approval pem 1000600 approval_algorithm
    ∷ cancels challenge_id 1000700
    ∷ []

All-fresh : All (IsOther challenge_id) two_uses
All-fresh = (tt, (tt, (tt, (tt, tt))))

confirmed_at_most_once_example : confirmations example_crypto challenge_id two_uses issued ≤ 1
confirmed_at_most_once_example =
    confirmed_at_most_once example_crypto challenge_id two_uses issued All-fresh

-- The first of the two uses does confirm.
confirmed_once : confirmations example_crypto challenge_id two_uses issued ≡ 1
unfolding consume canonicalize_binding validate_binding common_tests ordered_fields collect
    field_value Fields-discrete verify_approval cancel lookup insert text_eq ◌>>=◌ ℕ_discrete
confirmed_once = refl

stored_done : lookup challenge_id ((challenge_id, done) ∷ []) ≡ some done
unfolding lookup text_eq
stored_done = refl

terminal-run_example :
    lookup challenge_id (run example_crypto two_uses ((challenge_id, done) ∷ [])) ≡ some done
terminal-run_example =
    terminal-run example_crypto challenge_id two_uses ((challenge_id, done) ∷ []) done All-fresh
      stored_done refl

valid : validate_binding binding ≡ none
unfolding validate_binding common_tests text_eq
valid = refl

canonical : canonicalize_binding binding ≡ ok (ordered_fields binding)
unfolding canonicalize_binding validate_binding common_tests text_eq
canonical = refl

canonicalize-injective_example : binding ≡ binding
canonicalize-injective_example =
    canonicalize-injective binding binding {x = ordered_fields binding} canonical canonical

issued-IsSound : IsSound issued
unfolding lookup
issued-IsSound = record {
  distinct = (refl, tt);
  entries = (
    (
      refl,
      record {
        valid = valid;
        unused = λ _. refl;
        used = λ u. absurd (ground arith);
        after_issuance = λ t e. absurd (ground arith);
      },
    ),
    tt,
  );
}

restore-snapshot_example : restore (snapshot issued) ≡ ok issued
restore-snapshot_example = restore-snapshot issued issued-IsSound

cancel-IsSound_example : IsSound (cancel challenge_id 1000700 issued).1
cancel-IsSound_example = cancel-IsSound challenge_id 1000700 issued issued-IsSound

consume-IsSound_example :
    IsSound (consume example_crypto approval pem 1000500 approval_algorithm issued).1
consume-IsSound_example =
    consume-IsSound example_crypto approval pem 1000500 approval_algorithm issued (omega arith)
      issued-IsSound

abbrev early : ChallengeRecord
early = record { binding = binding; status = confirmed; consumed_at = some 999000 }

in_time :
    Consumed example_crypto approval pem 1000500 approval_algorithm issued done
      ((challenge_id, done) ∷ [])
in_time =
    (consume-iff-Consumed example_crypto approval pem 1000500 approval_algorithm issued
        ((challenge_id, done) ∷ []) done).0
      consumed

issued_stored :
    lookup challenge_id issued ≡ some (record early { status = created; consumed_at = none })
unfolding lookup text_eq
issued_stored = refl

consumed_early_example :
    (consume example_crypto approval pem 999000 approval_algorithm issued
      ≡ (ok early, insert challenge_id early issued))
    × (restore (early ∷ []) ≡ err consumed_before_issuance)
consumed_early_example =
    consumed_early example_crypto approval pem 999000 approval_algorithm
      (record early { status = created; consumed_at = none }) in_time.payload issued issued_stored
      refl refl in_time.valid in_time.signed (omega arith) (omega arith)

abbrev settles : List TransactionState
settles = confirmation_pending ∷ TransactionState.confirmed ∷ clearing_received ∷ settled ∷ []

settles-IsHistory : IsHistory received settles
unfolding transition_transaction
settles-IsHistory = (refl, (refl, (refl, (refl, tt))))

history_bounded_example : length settles ≤ 6
history_bounded_example = history_bounded received settles settles-IsHistory

settled_needs_clearing_example :
    (received ≡ settled) ⊎ (received ≡ clearing_received) ⊎ Occurs clearing_received settles
settled_needs_clearing_example = settled_needs_clearing received settles settles-IsHistory refl

abbrev provisions : List ProvisioningState
provisions = risk_scored ∷ approved ∷ token_active_capped ∷ []

provisions-IsHistory : IsProvisioningHistory requested provisions
unfolding transition_provisioning
provisions-IsHistory = (refl, (refl, (refl, tt)))

provisioning_history_bounded_example : length provisions ≤ 5
provisioning_history_bounded_example =
    provisioning_history_bounded requested provisions provisions-IsHistory

-- Logs whose events carry a number, with the event as its own digest where that is injective.
abbrev one_event : AuditLog ℕ ℕ
one_event = append (λ b. b.event_id) 1 (text "correlation") 7 1000000 (text "event-a") []

one_event_verifies : verify (λ b. b.event_id) one_event ≡ true
unfolding verify append text_eq
one_event_verifies = refl

verify-append_example :
    verify
      (λ b. b.event_id)
      (append (λ b. b.event_id) 2 (text "correlation") 8 1000100 (text "event-b") one_event)
    ≡ true
verify-append_example =
    verify-append (λ b. b.event_id) 2 (text "correlation") 8 1000100 (text "event-b") one_event
      one_event_verifies

-- A digest without collisions: the texts of an event, each with an end that occurs nowhere else.
abbrev seal : Text → Text → Text
seal [] rest = 0 ∷ rest
seal (c ∷ t) rest = suc c ∷ seal t rest

seal-injective : (a b r s : Text) → seal a r ≡ seal b s → (a ≡ b) × (r ≡ s)
seal-injective [] [] r s h = ground arith
seal-injective [] (c ∷ b) r s h = absurd (ground arith)
seal-injective (c ∷ a) [] r s h = absurd (ground arith)
seal-injective (c ∷ a) (d ∷ b) r s h = ground (arith, seal-injective a b r s)

abbrev pub sealed : AuditBody ℕ ℕ → Text
sealed b =
    b.sequence
    ∷ b.type
    ∷ b.payload
    ∷ b.occurred_at
    ∷ seal b.event_id (seal b.correlation_id b.previous_hash)

pub sealed-injective : (x y : AuditBody ℕ ℕ) → sealed x ≡ sealed y → x ≡ y
sealed-injective x y h =
    let outer =
      seal-injective x.event_id y.event_id (seal x.correlation_id x.previous_hash)
        (seal y.correlation_id y.previous_hash) in
    let inner = seal-injective x.correlation_id y.correlation_id x.previous_hash y.previous_hash in
    ground (arith, outer, inner)

abbrev sealed_log : AuditLog ℕ ℕ
sealed_log = append sealed 1 (text "correlation") 7 1000000 (text "event-a") []

sealed_log_verifies : verify sealed sealed_log ≡ true
unfolding verify append text_eq
sealed_log_verifies = refl

last_hash-determines_example : sealed_log ≡ sealed_log
last_hash-determines_example =
    last_hash-determines sealed sealed_log sealed_log sealed-injective refl sealed_log_verifies
      sealed_log_verifies refl
