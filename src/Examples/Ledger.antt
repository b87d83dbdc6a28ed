-- ===== src/Examples/Ledger.antt =====
-- packages/storage/durableStore.ts: runs of the outbox, the versioned records and idempotent mutations.
use contactless_airlock_lab.Prelude.{
  ◌≡◌, ◌≢◌, refl, inr, true, false, Text, text, text_Eq, text_eq, text_le, some, none, Option, ℕ,
  List, [], ◌∷◌, Result, ok, err, lookup, insert, ◌>>=◌, arith,
}
use contactless_airlock_lab.Storage.{
  OutboxEvent, OutboxTable, StorageError, invalid_payload, DurableStore, Idempotent, scoped_key_Eq,
  swap_conflict, VersionedRecord, Json, create_record, compare_and_swap, transaction, answer,
  answer_first, run_idempotent,
}
use contactless_airlock_lab.Storage.Outbox.{
  new_event, claimed, claim_rows, claim_selected, claim_outbox, candidates, take, sort, place,
  iso_ltb, update_row, acknowledge_outbox, release_outbox, delivered,
}
use contactless_airlock_lab.Storage.Outbox.Leases.{
  Call, acknowledges, releases, run, IsKeyed, returns, Held,
}
use contactless_airlock_lab.Storage.Outbox.Exclusion.{lease_excludes}
use contactless_airlock_lab.Storage.Outbox.Delivery.{delivered_once}
use contactless_airlock_lab.Storage.Outbox.Progress.{due_is_claimed}
use contactless_airlock_lab.Storage.Records
use contactless_airlock_lab.Storage.Records.{swap_once}
use contactless_airlock_lab.Storage.Answers
use contactless_airlock_lab.Storage.Programs
use contactless_airlock_lab.Storage.Programs.{Program, perform}
use contactless_airlock_lab.Storage.Answers.{writes, mutates, IsAnswer, idempotent_again}

abbrev first_id : Text
first_id = text "a"

abbrev worker : Text
worker = text "w"

abbrev other : Text
other = text "v"

abbrev second_id : Text
second_id = text "b"

abbrev event : OutboxEvent
event = new_event first_id (text "k") (text "t") (text "g") (text "1") 4000

abbrev next_event : OutboxEvent
next_event = new_event second_id (text "l") (text "t") (text "g") (text "2") 4500

abbrev table : OutboxTable
table = (second_id, next_event) ∷ (first_id, event) ∷ []

abbrev claimed_table : OutboxTable
claimed_table = (second_id, next_event) ∷ (first_id, claimed worker 7000 event) ∷ []

-- The older event alone is within the limit.
claims_event :
    claim_outbox worker 1 2000 5000 table ≡ (ok (claimed worker 7000 event ∷ []), claimed_table)
unfolding iso_ltb claim_outbox claim_selected claim_rows candidates take sort place text_le text_eq
    lookup insert ◌>>=◌
claims_event = refl

-- The other worker tries to release what it does not hold, and then claims.
abbrev attempts : List Call
attempts = releases first_id other 9000 6500 ∷ acknowledges first_id other 6600 ∷ []

abbrev late_table : OutboxTable
late_table = (second_id, claimed other 8900 next_event) ∷ (first_id, claimed worker 7000 event) ∷ []

late_claim :
    claim_outbox other 10 2000 6900 (run attempts claimed_table)
    ≡ (ok (claimed other 8900 next_event ∷ []), late_table)
unfolding iso_ltb claim_outbox claim_selected claim_rows candidates take sort place text_le text_eq
    lookup insert release_outbox acknowledge_outbox update_row ◌>>=◌
late_claim = refl

table-IsKeyed : IsKeyed table
table-IsKeyed = (refl, (refl, tt))

others_differ : other ≢ worker
others_differ e = absurd (ground (arith, e))

lease_excludes_example : returns first_id (claimed other 8900 next_event ∷ []) ≡ false
unfolding text_eq
lease_excludes_example =
    lease_excludes worker other first_id 1 2000 5000 10 2000 6900 (claimed worker 7000 event ∷ [])
      (claimed other 8900 next_event ∷ []) table claimed_table late_table attempts table-IsKeyed
      claims_event (omega arith) refl (inr others_differ, (inr others_differ, tt)) (omega arith)
      late_claim

abbrev delivered_table : OutboxTable
delivered_table =
    (second_id, next_event) ∷ (first_id, delivered 6000 (claimed worker 7000 event)) ∷ []

delivers_event : acknowledge_outbox first_id worker 6000 claimed_table ≡ (ok tt, delivered_table)
unfolding iso_ltb acknowledge_outbox update_row text_eq lookup insert ◌>>=◌
delivers_event = refl

claimed_table-IsKeyed : IsKeyed claimed_table
claimed_table-IsKeyed = (refl, (refl, tt))

abbrev last_table : OutboxTable
last_table =
    (second_id, claimed other 11000 next_event)
    ∷ (first_id, delivered 6000 (claimed worker 7000 event))
    ∷ []

last_claim :
    claim_outbox other 10 2000 9000 (run attempts delivered_table)
    ≡ (ok (claimed other 11000 next_event ∷ []), last_table)
unfolding iso_ltb claim_outbox claim_selected claim_rows candidates take sort place text_le text_eq
    lookup insert release_outbox acknowledge_outbox update_row ◌>>=◌
last_claim = refl

delivered_once_example : returns first_id (claimed other 11000 next_event ∷ []) ≡ false
delivered_once_example =
    delivered_once first_id worker other 6000 10 2000 9000 claimed_table delivered_table last_table
      attempts (claimed other 11000 next_event ∷ []) claimed_table-IsKeyed delivers_event last_claim

event_stored : lookup first_id table ≡ some event
unfolding lookup text_eq
event_stored = refl

due_is_claimed_example :
    (events : List OutboxEvent) × ((claim_outbox worker 2 2000 5000 table).0 ≡ ok events)
    × (returns first_id events ≡ true)
    × Held first_id worker 7000 (claim_outbox worker 2 2000 5000 table).1
unfolding iso_ltb
due_is_claimed_example =
    due_is_claimed worker first_id 2 2000 5000 event table table-IsKeyed event_stored refl
      (omega arith) refl (omega arith) (omega arith) (omega arith)

abbrev empty_store : DurableStore
empty_store = record { challenges = []; idempotency = []; outbox = [] }

-- A value of a mutation: a date is stored as its text, and comes back as a string; `undefined` has no text.
data Value : Type 0 where
  date : ℕ → Value
  string : Text → Value
  undefined : Value

abbrev printed : Value → Option Text
printed (date n) = some (n ∷ [])
printed (string t) = some t
printed undefined = none

abbrev value_json : Json Value
value_json = record { stringify = printed; parse = λ t. some (string t) }

-- A mutation that creates a record, and one that fails after it did.
abbrev creating : Program Value
creating = Programs.creates first_id (text "open") (text "1") 10 (λ r. Programs.returns (date 65))

abbrev failing : Program Value
failing =
    Programs.creates (text "b") (text "open") (text "1") 20 (λ r. Programs.throws invalid_payload)

abbrev answered : Result StorageError (Idempotent Value) × DurableStore
answered =
    run_idempotent value_json (text "s") (text "k") (text "h") (perform creating) 10 empty_store

answers_first :
    run_idempotent value_json (text "s") (text "k") (text "h") (perform creating) 10 empty_store
    ≡ (ok (record { replayed = false; value = date 65 }), answered.1)
unfolding run_idempotent transaction answer answer_first perform create_record lookup insert text_eq
    ◌>>=◌
answers_first = refl

abbrev further_calls : List (Answers.Call Value)
further_calls =
    writes (Records.swaps first_id 0 (text "open") (text "done") (text "2") 15)
    ∷ mutates (text "s") (text "k") (text "other") failing 16
    ∷ mutates (text "s") (text "j") (text "h") failing 17
    ∷ []

idempotent_again_example :
    (value : Value) × IsAnswer value_json
      (text "s")
      (text "k")
      (record { replayed = false; value = date 65 })
      value
    × (run_idempotent value_json
          (text "s")
          (text "k")
          (text "h")
          (perform failing)
          20
          (Answers.run value_json further_calls answered.1)
        ≡ (
          ok (record { replayed = true; value = value }),
          Answers.run value_json further_calls answered.1,
        ))
idempotent_again_example =
    idempotent_again value_json (text "s") (text "k") (text "h") (perform creating)
      (perform failing) 10 20 (record { replayed = false; value = date 65 }) empty_store answered.1
      further_calls (λ value response h. (string response, refl)) answers_first

abbrev created : Result StorageError VersionedRecord × DurableStore
created = create_record first_id (text "open") (text "1") 10 empty_store

abbrev swapped : Result StorageError VersionedRecord × DurableStore
swapped = compare_and_swap first_id 0 (text "open") (text "done") (text "2") 15 created.1

abbrev swapped_row : VersionedRecord
swapped_row = record { value = text "2"; status = text "done"; version = 1; updated_at = 15 }

swaps_first :
    compare_and_swap first_id 0 (text "open") (text "done") (text "2") 15 created.1
    ≡ (ok swapped_row, swapped.1)
unfolding compare_and_swap create_record lookup insert text_eq ◌>>=◌
swaps_first = refl

abbrev further_writes : List Records.Call
further_writes = Records.swaps first_id 1 (text "done") (text "open") (text "1") 18 ∷ []

swap_once_example :
    compare_and_swap first_id 0
      (text "open")
      (text "done")
      (text "3")
      20
      (Records.run further_writes swapped.1)
    ≡ (err swap_conflict, Records.run further_writes swapped.1)
swap_once_example =
    swap_once first_id 0 0 (text "open") (text "done") (text "2") (text "open") (text "done")
      (text "3") 15 20 swapped_row created.1 swapped.1 further_writes swaps_first (omega arith)
