-- ===== src/Lib.antt =====
-- devfootnote keeps a user's materials, indexes them with an AI provider's embeddings, answers
-- questions on them with citations, and keeps the cost of the calls within a shared budget. Its parts
-- work on one PostgreSQL database, and a transaction of the worker joins them: a work of the indexing
-- module, or a request of the answers, may call the provider only if the consent and the reservation
-- of the usage module and the current revision of the materials module allow it.
--
-- Base: tests on numbers and on null (Tests), lists (Lists), tables as lists of rows with the SQL
-- statements on them (Table), and primary keys (Keys).
--
-- Usage: packages/db/src/schema/usage-retention.ts (Schema); `reserveAiBudget` of
-- packages/db/src/usage-retention/budget-reservation.ts (Budget); the operations of
-- apps/worker/src/modules/usage-retention/usage.repository.ts (Reservations, Cleanup) and of
-- apps/worker/src/modules/usage-retention/answer-usage.repository.ts (Answering); consents and query
-- calls of apps/api/src/modules/usage-retention (Consents, Queries). Timeline puts all of them
-- together as the steps of one relation on a moment, which is a time and a ledger.
--
-- Materials: `chunkBody` of apps/api/src/modules/materials/domain/material-content.ts (Content); the
-- rows and constraints of packages/db/src/schema/materials.ts (Schema); the writes of
-- apps/api/src/modules/materials/infrastructure/drizzle-materials.repository.ts (Store); what the
-- worker reads of them, apps/worker/src/modules/materials/materials.repository.ts (Current); and what
-- the API locks of them for an answer (Evidence).
--
-- Indexing: packages/db/src/indexing-policy.ts and packages/db/src/schema/indexing.ts (Schema);
-- apps/worker/src/modules/indexing/embedding-execution.policy.ts (Policy); the transitions of a
-- work, apps/worker/src/modules/indexing/embedding-work.repository.ts (Works). Steps puts the
-- transitions together as one relation. Execution is the service that joins the parts,
-- apps/worker/src/modules/indexing/embedding-execution.service.ts: `withFencedWork` is
-- `with_fenced_work`, on one record of all tables (Execution), and its calls stand in
-- Execution/Calls, Execution/Completion and Execution/Recovery. Execution/Histories puts the calls
-- together as one relation, with changes of the other modules' tables in between. The insert of
-- vectors makes the tests of their table's constraints on the chunks of the materials module.
--
-- Answers: packages/db/src/schema/answers.ts (Schema); the statements of
-- apps/worker/src/modules/answers/answers.repository.ts (Requests); the service of
-- apps/worker/src/modules/answers/answers.service.ts: `fences` (Fences), `start` (Execution),
-- `complete` (Completion), `process` and `sweep` (Scanner); and `isSafeAnswerClaim` of
-- packages/ai/src/gemini-answer.ts (Safety); and of
-- apps/api/src/modules/answers/answers.service.ts `read`, which shows an answer (View), and `generate`,
-- which admits a question (Admission, Generation). Requests/Changes puts the statements together as
-- one relation.
--
-- Auth: packages/db/src/schema/auth.ts and the repository, the services and `loginReturnTo` of
-- apps/api/src/modules/auth (Store, Service, ReturnTo). Sessions puts the operations of the service
-- together as one relation.
--
-- Search: `createSearchSnippet` of apps/api/src/modules/search/search-snippet.ts (Snippet), and
-- `snapshotAnswerEvidence` of apps/api/src/modules/search/search.service.ts (Evidence).
--
-- A component's file holds the definitions; its children, named for what they prove, the theorems.
--
-- How the code is modelled. A table is a list of rows. An operation takes the tables and returns
-- them, with `none`, `err` or a constructor of its own where the code throws and the transaction
-- rolls back; the constraints of the schema are tests that a write makes. Times are milliseconds,
-- and each reading of the clock by a statement is an argument; so is each random UUID. Identifiers
-- and digests are natural numbers. Amounts of money are BigInt in the code and natural numbers here;
-- they do not wrap around. `for update skip locked` takes the set of the rows that others hold. The
-- materials' writes are modelled under Read Committed with the tables as each phase of the
-- transaction sees them.
--
-- Fuel: `chunkBody` runs on as much fuel as the text has code units. Every chunk has at least one
-- unit, and the theorem on it says that the fuel is enough. The binary search of
-- `originalOffset` runs on as much fuel as well: each round shortens an interval that begins as long
-- as the text, and the theorems on it say that this is enough. Nothing else needs fuel.
--
-- Parameters, for what is not in the repository: the calendar of the UTC month, and the random
-- numbers of a retry's delay, of which the theorem on the delay assumes that a number drawn below n is
-- less than n; the tests of a floating-point number that `completeAttempt` makes, and the
-- database where it asks for a norm above zero; and
-- the SHA-256 digest of a text, of which the theorem on two refreshes assumes that two tokens do not
-- share it; and the library of signed tokens and the parser of URLs, of which nothing is assumed; and
-- Unicode: NFKC with lower case, of which the theorem on `originalOffset` assumes that a longer prefix
-- of whole graphemes is not folded to a shorter text, and the division into graphemes; and the JSON
-- and the UTF-8 length of a question, of which nothing is assumed.
--
-- Not modelled: the user interface, the generated client, configuration, logging and HTTP; the
-- provider's calls; the consumers, the lifecycle and the repair of the indexing module, the
-- semantic search and the fusion of its ranks, and the cookies and guards of the authentication.
pub mod Base
pub mod Usage
pub mod Materials
pub mod Indexing
pub mod Answers
pub mod Auth
pub mod Search
