-- ===== src/Lib.antt =====
-- A verification library of Cerniq: the business logic of its TypeScript packages, workers and API,
-- as definitions that compute, with theorems on them.
--
-- The program takes companies from raw imports (bronze) over normalized records (silver) to
-- enriched profiles (gold), asks people for approval where it is not sure, and contacts the leads by
-- WhatsApp and email. PostgreSQL holds the state, Redis the queues, counters and sessions; workers
-- read jobs from the queues and queue others.
--
-- The files and what they model:
-- - Prelude.antt: lists, options, texts, integers and tables that all parts share. A table is a list
--   of rows, `findFirst` with a `where` is `find_by`, an `update` is `update_where`.
-- - Identifiers.antt: packages/shared-types/src/identifiers.ts and
--   workers/enrichment/src/lib/cui-validation.ts. A text is the list of its code units. Cui.antt has
--   `sanitizeCui` and `isValidCUI`, CuiValidation.antt the checksum of the enrichment worker,
--   NrRegCom.antt the trade register number in its two forms, with `throws` for an Error.
-- - Approval.antt: packages/db/src/services/approval-service.ts with the tables of
--   packages/db/src/schemas. Model, Audit and Service hold the rows, the audit log and the helpers;
--   Operations and Escalation hold the methods that change state, Queries those that read. A method
--   takes the database and returns the new one or the error that it throws. Steps breaks each
--   method into the single writes it makes; Guarantees and Chain follow an invariant over them.
-- - Outreach.antt: workers/outreach/src. LeadFsm.antt is workers/lead-fsm.ts (LeadFsm/Graph has the
--   diagram of its table as a relation, which has more moves than that of ADR-0062, LeadFsm/Runs any
--   sequence of jobs); Quota.antt is utils/quota-lua.ts and
--   workers/quota-guardian.ts; Resilience.antt is workers/resilience.ts; Sequences.antt is
--   workers/sequences.ts, which uses the clock and the loop of Resilience.antt.
-- - Auth.antt: apps/api/src/lib/refresh-token-store.ts and /refresh and /logout of
--   apps/api/src/routes/auth.ts. Tokens/Race has two requests whose Redis commands interleave.
-- - CompanyIdentity.antt: packages/db/src/services/company-identity.ts, which decides what company a
--   raw contact names, and merges two companies that turn out to be one. Action is a transaction on
--   the tables of Model: a query or write may throw, and what it wrote before stays until the attempt
--   is rolled back. Keys has the single reads and writes, Merge, Detect, Service and Upsert what is
--   made of them. Invariant walks through the code once for any relation that the writes keep, and
--   Frame has the rules for what an action leaves alone and what is so when it returns.
-- - Enrichment.antt: workers/enrichment/src. Completion.antt is lib/enrichment-completion.ts, on the
--   row of one company; Ingest.antt is the insertion of workers/ingest-utils.ts, which resolves each
--   inserted contact by CompanyIdentity.antt, and the detection of a file's encoding; Errors.antt is
--   workers/p4-error-handler.ts.
-- - The modules named Tests (and Outreach/ClockTests, with the clock of Outreach/Clock,
--   Enrichment/IngestTests and Enrichment/ErrorTests) apply the theorems at concrete inputs.
--
-- What stands for code outside the repository: SHA-256 is the parameter `digest` or `hash`, with
-- injectivity as a named hypothesis where a theorem needs it; luxon's DateTime is the record
-- `Calendar` with the laws `Laws`; a signed token is what its verification gives; which batches the
-- database refuses is a field of `Outside`; ids drawn by the database or by uuid are arguments, or a
-- counter of the tables. An id is a number, as only its equality is used; a time is a number of
-- milliseconds or a value of the calendar.
--
-- Bounds and fuel: the split of a batch runs on the length of its payload, and Ingest/Ends proves
-- that this is enough. The one loop without a bound, over weekends and holidays, runs on 42 units of
-- fuel, three for each of the 13 holidays and three more, and Resilience/Skip proves them enough.
-- Numbers are natural numbers; what is left of a quota is an integer.
--
-- A call of a service or a job is one step, and the theorems are about calls one after the other.
-- `assignTask`, `decide` and `escalate` read a task's status before their transaction and update
-- without a guard on it: what two of them do at once to one task is not modelled. Only
-- Tokens/Race.antt has commands that interleave.
--
-- What is not modelled: the expiry of Redis keys, floats (mean decision times, percentages), queue
-- options, logging, advisory locks, login and registration, and the other workers, routes and front
-- ends.
pub mod Prelude
pub mod Identifiers
pub mod Approval
pub mod Outreach
pub mod Auth
pub mod Enrichment
pub mod CompanyIdentity
