-- ===== src/Auth.antt =====
-- Sign-in and sessions: apps/api/src/modules/auth.
pub mod Store
pub mod Service
pub mod Sessions
pub mod Limits
pub mod Endings
pub mod States
pub mod ReturnTo
mod Tests
