-- ===== src/Application.antt =====
-- src/application: registered applications, their repository and the registry.
pub mod Model
pub mod Repository
pub mod Registry
