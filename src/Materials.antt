-- ===== src/Materials.antt =====
-- The materials: their text, its division into chunks, and the store of revisions and receipts.
pub mod Content
pub mod Schema
pub mod Store
pub mod Current
pub mod Evidence
mod Tests
