-- ===== src/Session.antt =====
-- src/session: revocable login sessions, their repository and the service over it.
pub mod Model
pub mod Store
pub mod Delegated
pub mod Service
