-- ===== src/Client.antt =====
-- src/client: OAuth clients, their redirect URIs, their repository and the manager.
pub mod Uri
pub mod Model
pub mod Repository
pub mod Manager
