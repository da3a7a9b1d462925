-- ===== src/Http.antt =====
-- src/http: what the client keeps between requests.
pub mod Http3Cache
pub mod Retry
