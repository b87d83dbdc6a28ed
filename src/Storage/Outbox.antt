-- ===== src/Storage/Outbox.antt =====
-- packages/storage/durableStore.ts: the outbox. `OutboxTable` is the table outbox_events. An instant is its
-- milliseconds from 1970 on, a number past those of a `Date` an invalid date; what the table has and
-- compares is its ISO text.
pub mod Leases
pub mod Steps
pub mod Delivery
pub mod Progress
pub mod Exclusion
use contactless_airlock_lab.Prelude.{
  ℕ, zero, suc, ◌+◌, Bool, true, false, not, ◌&&◌, ◌||◌, Option, none, some, List, [], ◌∷◌, Text,
  ltb, leb, nat_eq, any, length, is_blank, text_le, keep, values, map, ◌==◌, text_Eq, if◌then◌else◌,
  Map, lookup, insert, has, Result, ok, err, Exec, ◌>>=◌, ◌>>◌, pure, gets, modify, guard,
}
use contactless_airlock_lab.Storage.{
  OutboxEvent, OutboxTable, StorageError, invalid_identifier, invalid_payload, invalid_claim,
  invalid_time, invalid_date, invalid_lease, acknowledgement_conflict, release_conflict,
  constraint_violation,
}

abbrev pub Op : Type 0 → Type 0
Op A = Exec StorageError OutboxTable A

-- assertBoundedOutboxIdentifier, as a test
abbrev pub is_bounded : ℕ → Text → Bool
is_bounded maximum s = not (is_blank s) && leb (length s) maximum

-- assertValidDate, as a test: a `Date` has no later instant than this, and `toISOString` throws for others.
abbrev pub is_date : ℕ → Bool
is_date t = leb t 8640000000000000

-- The last instant of the year 9999. From the next year on an ISO text begins with a sign, which is less
-- than any digit.
abbrev pub last_plain_instant : ℕ
last_plain_instant = 253402300799999

abbrev pub has_sign : ℕ → Bool
has_sign t = ltb last_plain_instant t

-- The order of SQLite on two ISO texts.
unfoldable pub iso_ltb : ℕ → ℕ → Bool
iso_ltb a b =
    if has_sign a
    then (if has_sign b then ltb a b else true)
    else (if has_sign b then false else ltb a b)

abbrev pub iso_leb : ℕ → ℕ → Bool
iso_leb a b = not (iso_ltb b a)

-- `claimed_until IS NULL OR claimed_until <= now`
abbrev pub is_free : ℕ → Option ℕ → Bool
is_free now none = true
is_free now (some until) = iso_leb until now

abbrev pub is_undelivered : OutboxEvent → Bool
is_undelivered e = elim e.delivered_at [ none ↦ true | some at ↦ false ]

-- The WHERE of the selection in `claimOutbox`, and of the update there.
abbrev pub is_claimable : ℕ → OutboxEvent → Bool
is_claimable now e = is_undelivered e && iso_leb e.available_at now && is_free now e.claimed_until

abbrev pub is_updatable : ℕ → OutboxEvent → Bool
is_updatable now e = is_undelivered e && is_free now e.claimed_until

-- ORDER BY created_at, event_id
abbrev pub is_before : OutboxEvent → OutboxEvent → Bool
is_before a b =
    iso_ltb a.created_at b.created_at
    || (nat_eq a.created_at b.created_at && text_le a.event_id b.event_id)

unfoldable pub place : OutboxEvent → List OutboxEvent → List OutboxEvent
place e [] = e ∷ []
place e (x ∷ xs) = let rest = place e xs in if is_before e x then e ∷ x ∷ xs else x ∷ rest

unfoldable pub sort : List OutboxEvent → List OutboxEvent
sort [] = []
sort (e ∷ es) = place e (sort es)

-- LIMIT
unfoldable pub take : ℕ → List OutboxEvent → List OutboxEvent
take zero es = []
take (suc n) [] = []
take (suc n) (e ∷ es) = e ∷ take n es

-- The rows that `claimOutbox` selects.
unfoldable pub candidates : ℕ → ℕ → OutboxTable → List OutboxEvent
unfolding take sort place
candidates now limit table = take limit (sort (keep (is_claimable now) (values table)))

abbrev pub claimed : Text → ℕ → OutboxEvent → OutboxEvent
claimed worker until e = record e {
  claimed_by = some worker;
  claimed_until = some until;
  attempts = e.attempts + 1;
}

-- The loop of `claimOutbox`: a row that the update leaves is skipped.
unfoldable pub claim_rows :
    Text → ℕ → ℕ → List OutboxEvent → OutboxTable → List OutboxEvent × OutboxTable
claim_rows worker until now [] table = ([], table)
claim_rows worker until now (c ∷ cs) table = elim (lookup c.event_id table) [
  | none ↦ claim_rows worker until now cs table
  | some row ↦
      if is_updatable now row
      then (let more =
            claim_rows worker until now cs (insert c.event_id (claimed worker until row) table) in
          (claimed worker until row ∷ more.0, more.1))
      else claim_rows worker until now cs table
]

abbrev returned :
    List OutboxEvent × OutboxTable → Result StorageError (List OutboxEvent) × OutboxTable
returned (events, table) = (ok events, table)

unfoldable pub claim_selected : Text → ℕ → ℕ → ℕ → Op (List OutboxEvent)
claim_selected worker limit lease now table =
    returned (claim_rows worker (now + lease) now (candidates now limit table) table)

unfoldable pub claim_outbox : Text → ℕ → ℕ → ℕ → Op (List OutboxEvent)
claim_outbox worker limit lease now = do
  guard (is_bounded 128 worker) invalid_identifier
  guard (is_date now) invalid_time
  guard (leb 1 limit && leb limit 1000) invalid_claim
  guard (leb 1000 lease && leb lease 9007199254740991) invalid_lease
  guard (is_date (now + lease)) invalid_date
  claim_selected worker limit lease now

-- The WHERE of the updates in `acknowledgeOutbox` and `releaseOutbox`.
abbrev pub is_lease_of : Text → ℕ → OutboxEvent → Bool
is_lease_of worker now e =
    elim e.claimed_by [ none ↦ false | some w ↦ w == worker ]
    && elim e.claimed_until [ none ↦ false | some until ↦ iso_ltb now until ]
    && is_undelivered e

-- An update of the row of an id, where it meets a condition: one change, or none.
unfoldable pub update_row :
    StorageError → (OutboxEvent → Bool) → (OutboxEvent → OutboxEvent) → Text → Op (Unit {0})
update_row conflict test change id table = elim (lookup id table) [
  | none ↦ (err conflict, table)
  | some row ↦ if test row then (ok tt, insert id (change row) table) else (err conflict, table)
]

abbrev pub delivered : ℕ → OutboxEvent → OutboxEvent
delivered now e = record e { delivered_at = some now; claimed_by = none; claimed_until = none }

unfoldable pub acknowledge_outbox : Text → Text → ℕ → Op (Unit {0})
unfolding update_row
acknowledge_outbox id worker now = do
  guard (is_bounded 128 worker) invalid_identifier
  guard (is_date now) invalid_time
  update_row acknowledgement_conflict (is_lease_of worker now) (delivered now) id

abbrev pub released : ℕ → OutboxEvent → OutboxEvent
released retry_at e = record e { available_at = retry_at; claimed_by = none; claimed_until = none }

unfoldable pub release_outbox : Text → Text → ℕ → ℕ → Op (Unit {0})
unfolding update_row
release_outbox id worker retry_at now = do
  guard (is_bounded 128 worker) invalid_identifier
  guard (is_date retry_at && is_date now) invalid_time
  update_row release_conflict (is_lease_of worker now) (released retry_at) id

abbrev pub new_event : Text → Text → Text → Text → Text → ℕ → OutboxEvent
new_event id key topic aggregate payload now = record {
  event_id = id;
  event_key = key;
  topic = topic;
  aggregate_id = aggregate;
  payload = payload;
  created_at = now;
  available_at = now;
  attempts = 0;
  claimed_by = none;
  claimed_until = none;
  delivered_at = none;
}

-- `payloadJson === undefined || Buffer.byteLength(payloadJson) > OUTBOX_LIMITS.payloadBytes`, negated
abbrev is_payload : (Text → ℕ) → Option Text → Bool
is_payload byte_length none = false
is_payload byte_length (some json) = leb (byte_length json) 1048576

-- The constraints of the table: the event id and the event key are unique.
abbrev is_taken : Text → Text → OutboxTable → Bool
is_taken id key table = has id table || any (λ e. e.event_key == key) (values table)

-- `enqueue`; `byte_length` is node:buffer's, and the payload the text of its JSON, if it has one.
unfoldable pub enqueue : (Text → ℕ) → Text → Text → Text → Text → Option Text → ℕ → Op OutboxEvent
enqueue byte_length id key topic aggregate payload now = do
  guard (is_bounded 256 key) invalid_identifier
  guard (is_bounded 128 topic) invalid_identifier
  guard (is_bounded 256 aggregate) invalid_identifier
  guard (is_date now) invalid_time
  guard (is_payload byte_length payload) invalid_payload
  taken ← gets (is_taken id key)
  guard (not taken) constraint_violation
  let event = new_event id key topic aggregate (elim payload [ none ↦ [] | some json ↦ json ]) now
  modify (insert id event)
  pure event
