-- ===== src/Auth.antt =====
-- src/auth: credentials of requests.
pub mod Digest
