-- ===== src/Lib.antt =====
-- Contactless Airlock Lab: payment tokens and transactions that a trusted device approves by signing
-- one-time challenges, with the operations and the login around them.
--
-- The parts. A device signs the canonical form of a challenge binding; the challenge store issues
-- challenges and consumes each with one verified approval; the issuer engine holds devices, tokens,
-- provisioning requests and transactions, asks the store for challenges, moves its records along the
-- lifecycle tables and writes an audit log. The customer operations keep cases and two-person trust
-- resets behind idempotency keys. The session boundary holds the login sessions of the lab's server.
-- The durable store keeps versioned records, the answers of idempotent mutations and an outbox of events
-- under leases; the dispatcher sends these to a partner as signed webhooks, of which the receiver applies
-- each once. An audit log may have a keyring, which signs its events, and a trust anchor outside of it,
-- against which it is restored.
--
-- Protocol, Protocol.Canonical (packages/protocol/types.ts, canonical.ts): ChallengeBinding,
--   validateBinding, canonicalizeBinding. An instant is its milliseconds since the epoch; the canonical
--   form is the list of the present fields in ORDER, of which the program takes the JSON.
-- Transitions (packages/state-machine/transitions.ts): the tables and both transition functions.
-- Crypto (packages/crypto/deviceKeys.ts): verifyApproval over a parameter for node:crypto.
-- Challenges (packages/state-machine/challengeStore.ts): create, consume, cancel, get, snapshot, restore
--   on the map `#records`; random ids are arguments.
-- Audit (packages/audit/auditLog.ts): append and verify of a log without a key provider; Audit.Keyring has
--   InMemoryAuditKeyring, Audit.Signed append with a key provider or without, Audit.Verification verify
--   and the trust anchors, Audit.Restore snapshot and restore. SHA-256, HMAC and base64url are the parameters of
--   `Functions`; `payload` stands for the payload with the optional causation id.
-- Engine (apps/issuer-simulator/airlockEngine.ts): the state; Engine.Devices, Engine.Provisioning and
--   Engine.Transactions have the public methods, Engine.Invalidation what a removed device undoes. A
--   method takes the engine to a result and the engine it leaves, after an error too. Amounts are natural
--   numbers within the source's safe integers; a spend key is the pair of token and day.
-- Operations, Operations.Machine, Operations.Machine.Calls
--   (packages/customer-operations/operationsStateMachine.ts): the tables, the private parts with `#once`,
--   and the public methods; Operations.Trail has verifyAudit. The hashes of requests and events are
--   parameters, dates are valid ones.
-- Sessions (packages/security/sessionBoundary.ts): the constructor, login, issue, authenticate, verifyCsrf
--   and revoke, with the clock, the random tokens and SHA-256 as arguments.
-- Storage, Storage.Outbox (packages/storage/durableStore.ts): DurableStore as its three tables, with the
--   versioned records, the idempotent mutations in their transaction, and the outbox: enqueue, claimOutbox,
--   acknowledgeOutbox, releaseOutbox. A statement of SQL is the function of the rows that it selects or
--   updates; each operation is one step of the database. The outbox compares instants as SQLite compares
--   their ISO texts, where one after the year 9999 has a sign and stands before the others, and a date that
--   `toISOString` refuses is an error; the dates of records and answers are valid. A record's value is the
--   text of its JSON; JSON.stringify and JSON.parse of an answer are the parameter `Json`. Storage.Programs
--   has the calls of MutationTransaction that an operation makes.
-- Partner (packages/partner-transport/signing.ts): the signing and the verification of webhooks, and
--   MemoryReplayStore; Partner.Json, Partner.Forms, Partner.Contract (contract.ts): assertPartnerEnvelope on
--   the values of JSON.parse;
--   Partner.Receiver (receiver.ts): receivePartnerWebhook with MemoryPartnerIdempotencyStore over a state
--   of the caller's; Partner.Dispatcher (dispatcher.ts): dispatchOnce over a LeaseSource, which the outbox
--   of Storage.Outbox implements, with what the clock, the partner and the dead-letter sink do with an
--   event as an argument. SHA-256, HMAC, UTF-8 and JSON.parse are parameters; seconds are below 2^53.
-- Prelude: texts as UTF-16 code units, insertion-ordered maps, results and state. Examples: concrete runs.
--
-- No loop needs fuel: each runs over a list. Not modelled: restore and snapshot of the engine and of the
-- customer operations, the PostgreSQL store and the migrations, telemetry, launch policy, identity and
-- credentials, the HTTP server, tools and pages: they are input and output, other libraries' work, or not
-- reached yet.
pub mod Prelude
pub mod Protocol
pub mod Transitions
pub mod Crypto
pub mod Challenges
pub mod Audit
pub mod Engine
pub mod Operations
pub mod Sessions
pub mod Examples
pub mod Storage
pub mod Partner
