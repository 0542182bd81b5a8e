-- ===== src/Oauth.antt =====
-- src/oauth: authorization codes with PKCE, the authorization of devices, pushed requests.
pub mod Model
pub mod Store
pub mod Service
pub mod Device
pub mod Pushed
