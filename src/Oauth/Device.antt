-- ===== src/Oauth/Device.antt =====
-- src/oauth/device.cpp: the authorization of a device (RFC 8628).
pub mod Model
pub mod Store
pub mod Service
pub mod Ceremony
