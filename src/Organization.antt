-- ===== src/Organization.antt =====
-- src/organization: organizations, memberships and their repositories.
pub mod Model
pub mod Membership
pub mod Repository
