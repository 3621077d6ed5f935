-- ===== src/Answers.antt =====
-- Answers grounded in the materials: apps/worker/src/modules/answers and
-- apps/api/src/modules/answers.
pub mod Schema
pub mod Keys
pub mod Requests
pub mod Safety
pub mod Fences
pub mod Execution
pub mod Completion
pub mod Scanner
pub mod View
pub mod Admission
pub mod Generation
mod Samples
mod Runs
