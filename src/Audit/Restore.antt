-- ===== src/Audit/Restore.antt =====
-- packages/audit/auditLog.ts: snapshot and restore. What a snapshot holds has the types it should; an
-- invalid date is none.
pub mod Frames
pub mod Anchors
pub mod RoundTrip
use contactless_airlock_lab.Prelude.{
  ◌≡◌, ℕ, suc, ◌+◌, Bool, true, false, ◌&&◌, Option, none, some, List, [], ◌∷◌, nat_eq,
  if◌then◌else◌, Result, ok, err,
}
use contactless_airlock_lab.Audit.Keyring.{
  AuditError, invalid_snapshot, verification_failed, anchor_mismatch, no_trust_anchor,
}
use contactless_airlock_lab.Audit.Signed.{
  AuditAuthentication, SignedEvent, KeyProvider, TrustAnchor, Snapshot, legacy, authenticated,
  Functions, is_authentication,
}
use contactless_airlock_lab.Audit.Verification.{verify_signed, trust_anchor, same_anchor}

-- A log with the provider that it was made with.
abbrev pub Restored : Type 0 → Type 0 → Type 0
Restored T P = Option KeyProvider × List (SignedEvent T P)

abbrev pub is_unsigned : Option AuditAuthentication → Bool
is_unsigned none = true
is_unsigned (some a) = false

abbrev pub is_signed : Option AuditAuthentication → Bool
is_signed none = false
is_signed (some a) = is_authentication a

module _ {T P : Type 0} where
  unfoldable pub snapshot : Restored T P → Snapshot T P
  snapshot (none, log) = legacy log
  snapshot (some p, log) = authenticated log

  -- The tests of each event in turn, from the sequence number that comes next.
  unfoldable pub are_events :
      (Option AuditAuthentication → Bool) → ℕ → List (SignedEvent T P) → Bool
  are_events test next [] = true
  are_events test next (e ∷ es) =
      nat_eq e.body.sequence next && test e.authentication && are_events test (next + 1) es

module _ {T P : Type 0} where
  -- What follows the verification in `restore`.
  abbrev pub if_verified :
      Result AuditError Bool → Result AuditError (Restored T P) → Result AuditError (Restored T P)
  if_verified (ok true) next = next
  if_verified (ok false) next = err verification_failed
  if_verified (err x) next = err x

module _ {T P : Type 0} (f : Functions T P) where
  unfoldable pub restore_legacy : List (SignedEvent T P) → Result AuditError (Restored T P)
  restore_legacy log =
      if are_events is_unsigned 1 log
      then if_verified (verify_signed f none log) (ok (none, log))
      else err invalid_snapshot

  unfoldable pub restore_authenticated :
      KeyProvider → TrustAnchor → List (SignedEvent T P) → Result AuditError (Restored T P)
  restore_authenticated p anchor log =
      if are_events is_signed 1 log
      then if_verified (verify_signed f (some p) log) (
          if same_anchor (trust_anchor p log) anchor then ok (some p, log) else err anchor_mismatch)
      else err invalid_snapshot

  unfoldable pub restore :
      Snapshot T P → Option (KeyProvider × TrustAnchor) → Result AuditError (Restored T P)
  unfolding restore_legacy restore_authenticated
  restore (legacy log) none = restore_legacy log
  restore (legacy log) (some (p, anchor)) = err invalid_snapshot
  restore (authenticated log) none = err no_trust_anchor
  restore (authenticated log) (some (p, anchor)) = restore_authenticated p anchor log
