-- ===== src/Examples/Vault.antt =====
-- packages/audit/auditLog.ts: runs of a keyring and the log that it signs. A tag is 43 letters, which the
-- length of the text chooses.
use contactless_airlock_lab.Prelude.{
  ◌≡◌, refl, sym, ◌∙◌, ◌+◌, Bool, ℕ, true, false, text_eq_iff, ◌==◌, Text, text, text_Eq, text_eq,
  matches_id, matches_id_up_to, nat_eq, length, some, List, [], ◌∷◌, ok, lookup, insert, ◌>>=◌,
  arith, if◌then◌else◌,
}
use contactless_airlock_lab.Audit.{AuditBody}
use contactless_airlock_lab.Audit.Keyring.{
  ActiveKey, Keyring, add, add_all, activate, active_key, key_for, construct, no_keyring,
}
use contactless_airlock_lab.Audit.Signed.{
  next_body, authentication_genesis, authentication_tag, SignedEvent, KeyProvider, Functions,
  matches_tag, is_authentication, authenticated, append_signed,
}
use contactless_airlock_lab.Audit.Verification.{verify_signed, trust_anchor, same_anchor}
use contactless_airlock_lab.Audit.Custody.{provider}
use contactless_airlock_lab.Audit.Custody.Calls.{Call, adds, activates, appends, run}
use contactless_airlock_lab.Audit.Restore.{Restored, are_events, restore, snapshot}
use contactless_airlock_lab.Audit.Restore.Anchors.{restore_detects}
use contactless_airlock_lab.Audit.Restore.RoundTrip.{restore-run}
use contactless_airlock_lab.Examples.Store.{sealed, sealed-injective}

abbrev letters : Text
letters = text "ABCDEFGHIJKLMNOPQRSTUVWXYZabcdefghijklmnop"

abbrev tag_for : ℕ → Text
tag_for v = if nat_eq v 100 then b'1' ∷ letters else b'2' ∷ letters

abbrev functions : Functions ℕ ℕ
functions = record {
  digest = sealed;
  hmac = λ key t. tag_for (length t);
  print = λ n. n ∷ [];
  decode = λ t. t;
}

functions_tagged : (key : List ℕ) (t : Text) → matches_tag (functions.hmac key t) ≡ true
unfolding matches_tag
functions_tagged key t = ground arith

abbrev key_bytes : List ℕ
key_bytes = text "0123456789abcdef0123456789abcdef"

abbrev first_ring : Keyring
first_ring = (construct ((text "k1", key_bytes) ∷ []) (text "k1") no_keyring).1

makes_ring : construct ((text "k1", key_bytes) ∷ []) (text "k1") no_keyring ≡ (ok tt, first_ring)
unfolding construct add_all add matches_id matches_id_up_to lookup insert text_eq ◌>>=◌
makes_ring = refl

-- An event, a second key, its activation, and an event under it.
abbrev audit_calls : List (Call ℕ ℕ)
audit_calls =
    appends 1 (text "c") 7 1000 (text "e1")
    ∷ adds (text "k2") key_bytes
    ∷ activates (text "k2")
    ∷ appends 2 (text "c") 8 2000 (text "e2")
    ∷ []

restore-run_example :
    let s = run functions audit_calls (first_ring, []) in
    (k : ActiveKey) × (active_key s.0 ≡ some k)
    × (let p = provider k s.0 in
        restore functions (snapshot (some p, s.1)) (some (p, trust_anchor p s.1))
        ≡ ok (some p, s.1))
restore-run_example =
    restore-run functions ((text "k1", key_bytes) ∷ []) (text "k1") first_ring audit_calls
      functions_tagged makes_ring (omega arith)

-- Numbers as one letter that is no newline; the text that is signed, as its own tag.
abbrev raw : Functions ℕ ℕ
raw = record { digest = sealed; hmac = λ key t. t; print = λ n. (n + 11) ∷ []; decode = λ t. t }

abbrev body_one : AuditBody ℕ ℕ
body_one = next_body 1 (text "c") 7 1000 (text "e1") []

abbrev tag_one : Text
tag_one = b'1' ∷ letters

abbrev text_one : Text
text_one = authentication_tag raw key_bytes 1 (sealed body_one) (text "k1") 1 authentication_genesis

abbrev body_two : AuditBody ℕ ℕ
body_two = record {
  sequence = 2;
  event_id = text "e2";
  type = 2;
  correlation_id = text "c";
  occurred_at = 2000;
  payload = 8;
  previous_hash = sealed body_one;
}

abbrev text_two : Text
text_two = authentication_tag raw key_bytes 2 (sealed body_two) (text "k2") 2 tag_one

-- A tag without collisions: 43 letters for the two texts that are signed, and another form for others.
abbrev tag_of_text : Bool → Bool → Text → Text
tag_of_text true b t = tag_one
tag_of_text false true t = b'2' ∷ letters
tag_of_text false false t = 0 ∷ t

abbrev exact : Functions ℕ ℕ
exact = record {
  digest = sealed;
  hmac = λ key t. tag_of_text (t == text_one) (t == text_two) t;
  print = raw.print;
  decode = λ t. t;
}

tags_apart :
    (t t' : Text) (a b a' b' : Bool)
    → (a ≡ true → t ≡ text_one)
    → (b ≡ true → t ≡ text_two)
    → (a' ≡ true → t' ≡ text_one)
    → (b' ≡ true → t' ≡ text_two)
    → tag_of_text a b t ≡ tag_of_text a' b' t'
    → t ≡ t'
tags_apart t t' true b true b' h i h' i' e = h refl ∙ sym (h' refl)
tags_apart t t' true b false true h i h' i' e = absurd (ground (arith, e))
tags_apart t t' true b false false h i h' i' e = absurd (ground (arith, e))
tags_apart t t' false true true b' h i h' i' e = absurd (ground (arith, e))
tags_apart t t' false true false true h i h' i' e = i refl ∙ sym (i' refl)
tags_apart t t' false true false false h i h' i' e = absurd (ground (arith, e))
tags_apart t t' false false true b' h i h' i' e = absurd (ground (arith, e))
tags_apart t t' false false false true h i h' i' e = absurd (ground (arith, e))
tags_apart t t' false false false false h i h' i' e = ground (arith, e)

exact_macs :
    (k k' : List ℕ) (t t' : Text)
    → exact.decode (exact.hmac k t) ≡ exact.decode (exact.hmac k' t')
    → t ≡ t'
exact_macs k k' t t' =
    tags_apart t t' (t == text_one) (t == text_two) (t' == text_one) (t' == text_two)
      (text_eq_iff t text_one).0 (text_eq_iff t text_two).0 (text_eq_iff t' text_one).0
      (text_eq_iff t' text_two).0

abbrev last_state : Keyring × List (SignedEvent ℕ ℕ)
last_state = run exact audit_calls (first_ring, [])

abbrev signed_log : List (SignedEvent ℕ ℕ)
signed_log = last_state.1

abbrev second_key : ActiveKey
second_key = record { key_id = text "k2"; key_version = 2; key = key_bytes }

abbrev last_provider : KeyProvider
last_provider = provider second_key last_state.0

-- The provider of a keyring that has a further key.
abbrev other_provider : KeyProvider
other_provider = provider second_key (run exact (adds (text "k3") key_bytes ∷ []) last_state).0

log_verifies : verify_signed exact (some last_provider) signed_log ≡ ok true
unfolding verify_signed authentication_tag append_signed construct add_all add activate active_key
    key_for matches_id matches_id_up_to matches_tag is_authentication lookup insert text_eq ◌>>=◌
log_verifies = refl

restores :
    restore exact
      (authenticated signed_log)
      (some (other_provider, trust_anchor last_provider signed_log))
    ≡ ok (some other_provider, signed_log)
unfolding restore authentication_tag trust_anchor are_events same_anchor verify_signed append_signed
    construct add_all add activate active_key key_for matches_id matches_id_up_to matches_tag
    is_authentication lookup insert text_eq ◌>>=◌
restores = refl

abbrev restored : Restored ℕ ℕ
restored = (some other_provider, signed_log)

restore_detects_example : restored ≡ (some other_provider, signed_log)
restore_detects_example =
    restore_detects exact last_provider other_provider signed_log signed_log restored
      sealed-injective exact_macs (λ m n h. ground (arith, h)) (λ n. ground arith) log_verifies
      restores
