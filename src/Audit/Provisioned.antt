-- ===== src/Audit/Provisioned.antt =====
-- packages/audit/auditLog.ts: the constructor of the keyring.
use contactless_airlock_lab.Prelude.{
  ◌≡◌, refl, ap, ℕ, ◌+◌, true, none, some, List, [], ◌∷◌, Text, arith, lookup, lookup-insert_self,
  Option-cases, inl, inr, Result, ok, err, Result-cases, ◌>>=◌, text_Eq,
}
use contactless_airlock_lab.Audit.Keyring.{
  AuditError, no_keys, provisioned, KeyEntry, Keyring, is_key, add, add_all, activated, make_active,
  no_keyring, construct,
}
use contactless_airlock_lab.Audit.Rotation.{IsSound, add_cases, found_after}

-- A keyring that has no active key yet.
record IsProvisioned (r : Keyring) : Type 0 where
  unused : r.latest_key_version ≡ 0
  entries :
      (id : Text) (e : KeyEntry)
      → lookup id r.keys ≡ some e
      → (is_key id e.key ≡ true) × (e.status ≡ provisioned) × (e.key_version ≡ none)

add-IsProvisioned :
    (id : Text) (key : List ℕ) (r : Keyring) → IsProvisioned r → IsProvisioned (add id key r).1
add-IsProvisioned id key r h = elim (add_cases id key r) [
  | inl same ↦ rw same h
  | inr (missing, good, added) ↦
      let new : KeyEntry = record { key = key; status = provisioned; key_version = none } in
      rw added (record {
        unused = h.unused;
        entries = λ j e found. elim (found_after id j new e r.keys found) [
          | inl (here, same) ↦ rw (same, here) (good, refl, refl)
          | inr (there, old) ↦ h.entries j e old
        ];
      })
]

add_all-IsProvisioned :
    (keys : List (Text × List ℕ)) (r : Keyring) → IsProvisioned r → IsProvisioned (add_all keys r).1
unfolding add_all ◌>>=◌
add_all-IsProvisioned [] r h = h
add_all-IsProvisioned ((id, key) ∷ keys) r h =
    let before = add-IsProvisioned id key r h in
    let rest = add_all-IsProvisioned keys (add id key r).1 before in
    elim (Result-cases (add id key r).0) [
      | inl (u, passes) ↦ rw passes rest
      | inr (x, fails) ↦ rw fails before
    ]

first_active :
    (id : Text) (first : KeyEntry) (r : Keyring)
    → IsProvisioned r
    → lookup id r.keys ≡ some first
    → IsSound (activated id first r)
first_active id first r h found =
    let new = make_active (r.latest_key_version + 1) first in
    record {
      active = new;
      stored = lookup-insert_self id new r.keys;
      is_active = refl;
      version = refl;
      positive = omega arith;
      entries = λ j e is. elim (found_after id j new e r.keys is) [
        | inl (here, same) ↦ rw (same, here) ((h.entries id first found).0, (refl, refl))
        | inr (other, old) ↦
            let (valid, waits, no_version) = h.entries j e old in
            (valid, ground (arith, waits, no_version))
      ];
    }

constructed :
    (k : Text × List ℕ) (keys : List (Text × List ℕ)) (id : Text) (r r' : Keyring)
    → construct (k ∷ keys) id r ≡ (ok tt, r')
    → (first : KeyEntry) × (lookup id (add_all (k ∷ keys) r).1.keys ≡ some first)
      × (r' ≡ activated id first (add_all (k ∷ keys) r).1)
unfolding construct ◌>>=◌
constructed k keys id r r' h = elim (Result-cases (add_all (k ∷ keys) r).0) [
  | inr (x, fails) ↦ absurd (ground (arith, h, fails))
  | inl (u, passes) ↦ elim (Option-cases (lookup id (add_all (k ∷ keys) r).1.keys)) [
    | inl missing ↦ absurd (ground (arith, h, passes, missing))
    | inr (first, found) ↦ (first, found, ground (arith, h, passes, found))
  ]
]

nothing_stored : (j : Text) (e : KeyEntry) → lookup j no_keyring.keys ≡ some e → ⊥
unfolding lookup
nothing_stored j e found = absurd (ground (arith, found))

empty_fails : (id : Text) (r : Keyring) → construct [] id no_keyring ≡ (ok tt, r) → ⊥
unfolding construct ◌>>=◌
empty_fails id r h =
    failed (err no_keys) refl (ap (λ (x : Result AuditError (Unit {0}) × Keyring). x.0) h)
  where
    failed : (a : Result AuditError (Unit {0})) → a ≡ err no_keys → a ≡ ok tt → ⊥
    failed a p q = absurd (ground (arith, p, q))

-- What the constructor returns is sound, and its key has the first version.
pub construct-IsSound :
    (keys : List (Text × List ℕ)) (id : Text) (r : Keyring)
    → construct keys id no_keyring ≡ (ok tt, r)
    → IsSound r × (r.latest_key_version ≡ 1)
unfolding construct
construct-IsSound [] id r h = absurd (empty_fails id r h)
construct-IsSound (k ∷ keys) id r h =
    let none_yet : IsProvisioned no_keyring = record {
      unused = refl;
      entries = λ j e found. absurd (nothing_stored j e found);
    } in
    let p = add_all-IsProvisioned (k ∷ keys) no_keyring none_yet in
    let (first, found, is) = constructed k keys id no_keyring r h in
    rw is (first_active id first (add_all (k ∷ keys) no_keyring).1 p found, omega (arith, p.unused))
