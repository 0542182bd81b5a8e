-- ===== src/Consent.antt =====
-- src/consent: what a user has allowed a client, and its withdrawal.
pub mod Model
pub mod Repository
pub mod Service
pub mod Withdrawal
