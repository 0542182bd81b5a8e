-- ===== src/Oauth/Pushed.antt =====
-- src/oauth/par.cpp: pushed authorization requests.
pub mod Store
pub mod Service
pub mod Single
