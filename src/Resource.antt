-- ===== src/Resource.antt =====
-- src/resource: resource servers, the identities of services, and their registries.
pub mod Model
pub mod Repository
pub mod Registry
pub mod Service
