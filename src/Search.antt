-- ===== src/Search.antt =====
-- Search: apps/api/src/modules/search.
pub mod Snippet
pub mod Evidence
mod Tests
