-- ===== src/Policy.antt =====
-- src/policy/decision.cpp: authorization.
pub mod Request
pub mod Engine
pub mod Decisions
pub mod Access
