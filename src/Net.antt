-- ===== src/Net.antt =====
-- src/net.rs: the addresses of a host.
pub mod Addrs
