-- ===== src/Indexing.antt =====
-- The preparation of embeddings: apps/worker/src/modules/indexing, packages/db/src/schema/indexing.ts
-- and packages/db/src/indexing-policy.ts.
pub mod Schema
pub mod Policy
pub mod Works
pub mod Execution
mod Tests
mod Samples
mod Runs
