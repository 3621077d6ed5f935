-- ===== src/Usage.antt =====
-- packages/db/src/usage-retention, and the usage-retention modules of the API and of the worker:
-- budgets, cost reservations, call receipts and consents.
pub mod Schema
pub mod Budget
pub mod Reservations
pub mod Cleanup
pub mod Soundness
pub mod Consents
pub mod Queries
pub mod Answering
pub mod Timeline
mod Tests
