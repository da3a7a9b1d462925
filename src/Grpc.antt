-- ===== src/Grpc.antt =====
-- src/grpc: the framing of messages.
pub mod Framing
pub mod Wire
pub mod Reflection
