-- ===== src/Partner/Window.antt =====
-- packages/partner-transport/signing.ts: the last second of the replay window.
use contactless_airlock_lab.Prelude.{
  ◌≡◌, refl, ℕ, ◌+◌, ◌≤◌, Bool, true, false, Option, none, List, [], ◌∷◌, Text, arith, ltb, All,
  text_Eq, lookup, insert, Option-cases, inl, inr, ok, first_failure, no_failure,
}
use contactless_airlock_lab.Partner.{
  Digests, Delivery, ReplayStore, Verified, live, failures, replay_key, sent_at, window, distance,
  verify_partner_webhook,
}
use contactless_airlock_lab.Partner.Replay.{is_accepted, consume_cases, accepted_stored}

live-missing :
    (key : Text) (now : ℕ) (store : ReplayStore)
    → lookup key store ≡ none
    → lookup key (live now store) ≡ none
unfolding lookup live
live-missing key now [] h = refl
live-missing key now ((j, e) ∷ rest) h =
    ground (arith, h, live-missing key now rest (ground (arith, h)))

-- An entry is removed at the very instant of its expiry.
live-expired :
    (key : Text) (expiry now : ℕ) (store : ReplayStore)
    → lookup key store ≡ none
    → expiry ≤ now
    → lookup key (live now (insert key expiry store)) ≡ none
unfolding lookup live insert
live-expired key expiry now [] h over = ground (arith, over)
live-expired key expiry now ((j, e) ∷ rest) h over =
    ground (arith, h, over, live-expired key expiry now rest (ground (arith, h)) over)

All-pass :
    {E : Type 0} (tests : List (Bool × E))
    → All (λ (t : Bool × E). t.0 ≡ false) tests
    → first_failure tests ≡ none
All-pass [] h = refl
All-pass ((false, e) ∷ rest) (f, h) = All-pass rest h
All-pass ((true, e) ∷ rest) (f, h) = absurd (ground (arith, f))

-- The request at the last second of its window.
abbrev pub at_end : Delivery → Delivery
at_end r = record r { now = sent_at r + window r }

module _ (d : Digests) where
  passes_at_end :
      (resolve_key : Text → Option (List ℕ)) (r : Delivery)
      → first_failure (failures d resolve_key r) ≡ none
      → first_failure (failures d resolve_key (at_end r)) ≡ none
  unfolding failures
  passes_at_end resolve_key r h =
      let (f1, (f2, (f3, (f4, (f5, (f6, (f7, (f8, rest)))))))) =
        no_failure (failures d resolve_key r) h in
      All-pass (failures d resolve_key (at_end r))
        (f1, (f2, (f3, (f4, (f5, (f6, (f7, (inside (sent_at r) (window r), rest))))))))
    where
      inside : (sent w : ℕ) → ltb w (distance (sent + w) sent) ≡ false
      inside sent w = ground arith

  accepted_cases :
      (resolve_key : Text → Option (List ℕ)) (r : Delivery) (v : Verified)
      (store after : ReplayStore)
      → verify_partner_webhook d resolve_key r store ≡ (ok v, after)
      → (first_failure (failures d resolve_key r) ≡ none)
        × (lookup (replay_key r.headers) (live r.now store) ≡ none)
  unfolding verify_partner_webhook
  accepted_cases resolve_key r v store after h =
      elim (Option-cases (first_failure (failures d resolve_key r))) [
        | inr (e, fails) ↦ absurd (ground (arith, h, fails))
        | inl passes ↦
            elim (consume_cases d r.headers (replay_key r.headers) (sent_at r + window r) r.now
              store) [
                | inr (found, refused) ↦ absurd (ground (arith, h, passes, refused))
                | inl (w, missing, taken) ↦ (passes, missing)
              ]
      ]

  accepted_again :
      (resolve_key : Text → Option (List ℕ)) (r : Delivery) (store : ReplayStore)
      → first_failure (failures d resolve_key r) ≡ none
      → lookup (replay_key r.headers) (live r.now store) ≡ none
      → is_accepted (verify_partner_webhook d resolve_key r store).0 ≡ true
  unfolding verify_partner_webhook
  accepted_again resolve_key r store passes missing =
      elim (consume_cases d r.headers (replay_key r.headers) (sent_at r + window r) r.now store) [
        | inr (found, refused) ↦ absurd (ground (arith, missing, found))
        | inl (w, gone, taken) ↦ ground (arith, passes, taken)
      ]

  -- A request that was accepted is accepted again by the store that it leaves, at the instant that
  -- is the end of its window.
  pub replayed_at_window_end :
      (resolve_key : Text → Option (List ℕ)) (r : Delivery) (v : Verified)
      (store after : ReplayStore)
      → verify_partner_webhook d resolve_key r store ≡ (ok v, after)
      → is_accepted (verify_partner_webhook d resolve_key (at_end r) after).0 ≡ true
  unfolding verify_partner_webhook
  replayed_at_window_end resolve_key r v store after h =
      let (passes, missing) = accepted_cases resolve_key r v store after h in
      let expiry = sent_at r + window r in
      let key = replay_key r.headers in
      let gone : lookup key (live expiry after) ≡ none =
        rw (accepted_stored d resolve_key r v store after h)
          (live-expired key expiry expiry (live r.now store) missing (omega arith)) in
      accepted_again resolve_key (at_end r) after (passes_at_end resolve_key r passes) gone
