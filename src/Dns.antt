-- ===== src/Dns.antt =====
-- src/dns: the wire format of messages.
pub mod Wire
pub mod Response
pub mod Svcb
