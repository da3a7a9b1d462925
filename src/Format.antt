-- ===== src/Format.antt =====
-- src/format: what is shown of a response body.
pub mod Sse
