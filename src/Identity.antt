-- ===== src/Identity.antt =====
-- src/identity: the canonical identity, its links to external identities, and merges.
pub mod Assurance
pub mod Subject
pub mod Repository
pub mod Link
pub mod Directory
pub mod Merge
pub mod Transaction
