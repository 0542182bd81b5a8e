-- ===== src/Token.antt =====
-- src/token: the records of the OAuth tokens, their repository and the service.
pub mod Model
pub mod Store
pub mod Grant
pub mod Service
