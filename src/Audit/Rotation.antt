-- ===== src/Audit/Rotation.antt =====
-- packages/audit/auditLog.ts: the keyring under further keys and activations.
use contactless_airlock_lab.Prelude.{
  ◌≡◌, ◌≢◌, refl, sym, ap, ◌∙◌, ℕ, ◌+◌, ◌≤◌, ◌<◌, true, none, some, List, Text, arith, ◌==◌,
  text_Eq, text_eq_iff, Map, lookup, insert, lookup-insert, lookup-insert_self, lookup-insert_ne,
  Bool-cases, Option-cases, ◌⊎◌, inl, inr, ◌>>=◌,
}
use contactless_airlock_lab.Audit.Keyring.{
  KeyStatus, provisioned, active, retired, KeyEntry, VerificationKey, Keyring, is_key, add,
  activate, retire, make_active, activated, key_for, as_verification,
}

-- What the status of an entry says of its version.
abbrev pub IsEntry : ℕ → Text → Text → KeyEntry → Type 0
IsEntry latest active_id id e = elim e.status [
  | provisioned ↦ e.key_version ≡ none
  | active ↦ (e.key_version ≡ some latest) × (id ≡ active_id)
  | retired ↦ (v : ℕ) × (e.key_version ≡ some v) × (v < latest)
]

-- One key is active, with the latest version; those retired have earlier ones.
pub record IsSound (r : Keyring) : Type 0 where
  pub active : KeyEntry
  pub stored : lookup r.active_key_id r.keys ≡ some active
  pub is_active : active.status ≡ KeyStatus.active
  pub version : active.key_version ≡ some r.latest_key_version
  pub positive : 0 < r.latest_key_version
  pub entries :
      (id : Text) (e : KeyEntry)
      → lookup id r.keys ≡ some e
      → (is_key id e.key ≡ true) × IsEntry r.latest_key_version r.active_key_id id e

pub add_cases :
    (id : Text) (key : List ℕ) (r : Keyring)
    → ((add id key r).1 ≡ r)
      ⊎ ((lookup id r.keys ≡ none)
          × (is_key id key ≡ true)
          × ((add id key r).1 ≡ record r {
            keys =
                insert id (record { key = key; status = provisioned; key_version = none }) r.keys;
          }))
unfolding add ◌>>=◌
add_cases id key r = elim (Bool-cases (is_key id key)) [
  | inr bad ↦ inl (ground arith)
  | inl good ↦ elim (Option-cases (lookup id r.keys)) [
    | inr (e, found) ↦ inl (ground arith)
    | inl missing ↦ inr (missing, good, ground arith)
  ]
]

activate_cases :
    (id : Text) (r : Keyring)
    → IsSound r
    → ((activate id r).1 ≡ r)
      ⊎ ((next current : KeyEntry) × (lookup id r.keys ≡ some next)
          × (next.status ≡ provisioned)
          × (lookup r.active_key_id r.keys ≡ some current)
          × ((activate id r).1
              ≡ activated id next
                  (record r { keys = insert r.active_key_id (retire current) r.keys })))
unfolding activate ◌>>=◌
activate_cases id r s = elim (Option-cases (lookup id r.keys)) [
  | inl missing ↦ inl (ground arith)
  | inr (next, found) ↦ elim (status_cases next.status) [
    | inl waits ↦ inr (next, s.active, found, waits, s.stored, ground (arith, s.stored))
    | inr other ↦ inl (ground arith)
  ]
]
  where
    status_cases : (st : KeyStatus) → (st ≡ provisioned) ⊎ ((st ≡ active) ⊎ (st ≡ retired))
    status_cases st = ground arith

-- The entry found after an insertion is the new one, or an old one of another id.
pub found_after :
    (id j : Text) (new e : KeyEntry) (m : Map Text KeyEntry)
    → lookup j (insert id new m) ≡ some e
    → ((j ≡ id) × (e ≡ new)) ⊎ ((j ≢ id) × (lookup j m ≡ some e))
found_after id j new e m h = elim (Bool-cases (id == j)) [
  | inl same ↦
      inl (sym ((text_eq_iff id j).0 same), ground (arith, h, lookup-insert id j new m, same))
  | inr other ↦ inr (
    (λ p. ground (arith, other, text_eq_iff id j)),
    ground (arith, h, lookup-insert id j new m, other),
  )
]

pub add-IsSound : (id : Text) (key : List ℕ) (r : Keyring) → IsSound r → IsSound (add id key r).1
add-IsSound id key r s = elim (add_cases id key r) [
  | inl same ↦ rw same s
  | inr (missing, good, added) ↦
      let new : KeyEntry = record { key = key; status = provisioned; key_version = none } in
      let ne : id ≢ r.active_key_id =
        λ e. ground (arith, s.stored, ap (λ (x : Text). lookup x r.keys) e) in
      rw added (record {
        active = s.active;
        stored = lookup-insert_ne id r.active_key_id new r.keys ne ∙ s.stored;
        is_active = s.is_active;
        version = s.version;
        positive = s.positive;
        entries = λ j e h. elim (found_after id j new e r.keys h) [
          | inl (here, same) ↦ rw (same, here) (good, refl)
          | inr (there, old) ↦ s.entries j e old
        ];
      })
]

IsEntry-next :
    (latest : ℕ) (active_id id j : Text) (e : KeyEntry)
    → j ≢ active_id
    → IsEntry latest active_id j e
    → IsEntry (latest + 1) id j e
IsEntry-next latest active_id id j e ne h = grind arith

pub activate-IsSound : (id : Text) (r : Keyring) → IsSound r → IsSound (activate id r).1
activate-IsSound id r s = elim (activate_cases id r s) [
  | inl same ↦ rw same s
  | inr (next, current, found, waits, now, changed) ↦
      let old = insert r.active_key_id (retire current) r.keys in
      let new = make_active (r.latest_key_version + 1) next in
      let same : current ≡ s.active = ground (arith, now, s.stored) in
      rw changed (record {
        active = new;
        stored = lookup-insert_self id new old;
        is_active = refl;
        version = refl;
        positive = omega arith;
        entries = λ j e h. elim (found_after id j new e old h) [
          | inl (here, is) ↦ rw (is, here) ((s.entries id next found).0, (refl, refl))
          | inr (there, kept) ↦
              elim (found_after r.active_key_id j (retire current) e r.keys kept) [
                | inl (here, is) ↦
                    rw (is, here)
                      (
                        (s.entries r.active_key_id current now).0,
                        (
                          r.latest_key_version,
                          ap (λ (x : KeyEntry). x.key_version) same ∙ s.version,
                          omega arith,
                        ),
                      )
                | inr (other, before) ↦ (
                  (s.entries j e before).0,
                  IsEntry-next r.latest_key_version r.active_key_id id j e other
                      (s.entries j e before).1,
                )
              ]
        ];
      })
]

pub latest-add :
    (id : Text) (key : List ℕ) (r : Keyring)
    → (add id key r).1.latest_key_version ≤ r.latest_key_version + 1
latest-add id key r = elim (add_cases id key r) [
  | inl same ↦ rw same (omega arith)
  | inr (missing, good, added) ↦ rw added (omega arith)
]

pub latest-activate :
    (id : Text) (r : Keyring)
    → IsSound r
    → (activate id r).1.latest_key_version ≤ r.latest_key_version + 1
latest-activate id r s = elim (activate_cases id r s) [
  | inl same ↦ rw same (omega arith)
  | inr (next, current, found, waits, now, changed) ↦ rw changed (omega arith)
]

-- The key of an id, once it verifies, goes on verifying under its version.
pub record Still (id : Text) (k : VerificationKey) (r : Keyring) : Type 0 where
  pub later : VerificationKey
  pub stored : key_for id r ≡ some later
  pub same_key : later.key ≡ k.key
  pub same_version : later.key_version ≡ k.key_version

verification_entry :
    (id : Text) (k : VerificationKey) (r : Keyring)
    → key_for id r ≡ some k
    → (e : KeyEntry) × (lookup id r.keys ≡ some e) × (as_verification id e ≡ some k)
unfolding key_for
verification_entry id k r h = elim (Option-cases (lookup id r.keys)) [
  | inl missing ↦ absurd (ground arith)
  | inr (e, found) ↦ (e, found, ground arith)
]

Still-entry :
    (id : Text) (e new : KeyEntry) (k : VerificationKey) (r : Keyring)
    → as_verification id e ≡ some k
    → new.key ≡ e.key
    → new.key_version ≡ e.key_version
    → new.status ≢ provisioned
    → lookup id r.keys ≡ some new
    → Still id k r
unfolding key_for
Still-entry id e new k r h same_key same_version used found = record {
  later = record { key_id = id; key_version = k.key_version; key = k.key; status = new.status };
  stored = ground (arith, found, h, same_key, same_version, used);
  same_key = refl;
  same_version = refl;
}

used_entry :
    (id : Text) (e : KeyEntry) (k : VerificationKey)
    → as_verification id e ≡ some k
    → e.status ≢ provisioned
used_entry id e k h p = absurd (ground arith)

same_id : (i j : Text) → (i ≡ j) ⊎ (i ≢ j)
same_id i j = elim (Bool-cases (i == j)) [
  | inl same ↦ inl ((text_eq_iff i j).0 same)
  | inr other ↦ inr (λ p. ground (arith, other, text_eq_iff i j))
]

pub add-Still :
    (id : Text) (k : VerificationKey) (j : Text) (key : List ℕ) (r : Keyring)
    → key_for id r ≡ some k
    → Still id k (add j key r).1
add-Still id k j key r h =
    let (e, found, is) = verification_entry id k r h in
    let used = used_entry id e k is in
    elim (add_cases j key r) [
      | inl same ↦ rw same (Still-entry id e e k r is refl refl used found)
      | inr (missing, good, added) ↦
          let ne : j ≢ id = λ p. ground (arith, found, ap (λ (x : Text). lookup x r.keys) p) in
          rw added
            (Still-entry id e e k _ is refl refl used (lookup-insert_ne j id _ r.keys ne ∙ found))
    ]

pub activate-Still :
    (id : Text) (k : VerificationKey) (j : Text) (r : Keyring)
    → IsSound r
    → key_for id r ≡ some k
    → Still id k (activate j r).1
activate-Still id k j r s h =
    let (e, found, is) = verification_entry id k r h in
    let used = used_entry id e k is in
    elim (activate_cases j r s) [
      | inl same ↦ rw same (Still-entry id e e k r is refl refl used found)
      | inr (next, current, waiting, waits, now, changed) ↦
          let old = insert r.active_key_id (retire current) r.keys in
          let new = make_active (r.latest_key_version + 1) next in
          let ne : j ≢ id = λ p.
            used (ground (arith, found, waiting, waits, ap (λ (x : Text). lookup x r.keys) p)) in
          rw changed (elim (same_id r.active_key_id id) [
            | inl this ↦
                let same : current ≡ e =
                  ground (arith, found, now, ap (λ (x : Text). lookup x r.keys) this) in
                Still-entry id e (retire current) k _ is (ap (λ (x : KeyEntry). x.key) same)
                  (ap (λ (x : KeyEntry). x.key_version) same) (λ p. absurd (ground arith))
                  (lookup-insert_ne j id new old ne
                    ∙ ap (λ (x : Text). lookup x old) (sym this)
                    ∙ lookup-insert_self r.active_key_id (retire current) r.keys)
            | inr other ↦ Still-entry id e e k _ is refl refl used (
                lookup-insert_ne j id new old ne
                ∙ lookup-insert_ne r.active_key_id id (retire current) r.keys other
                ∙ found)
          ])
    ]

entry_bounds :
    (latest : ℕ) (active_id id : Text) (e : KeyEntry) (k : VerificationKey)
    → IsEntry latest active_id id e
    → as_verification id e ≡ some k
    → (k.key ≡ e.key) × (k.key_version ≤ latest) × ((k.key_version ≡ latest) → id ≡ active_id)
entry_bounds latest active_id id e k t is = (grind arith, grind arith, λ p. grind arith)

-- What verifies has a valid key, of at most the latest version, which is the active key's alone.
pub key_for_bounds :
    (id : Text) (k : VerificationKey) (r : Keyring)
    → IsSound r
    → key_for id r ≡ some k
    → (is_key id k.key ≡ true)
      × (k.key_version ≤ r.latest_key_version)
      × ((k.key_version ≡ r.latest_key_version) → id ≡ r.active_key_id)
key_for_bounds id k r s h =
    let (e, found, is) = verification_entry id k r h in
    let t = s.entries id e found in
    let b = entry_bounds r.latest_key_version r.active_key_id id e k t.1 is in
    (rw b.0 t.0, b.1, b.2)
