-- ===== src/Websocket.antt =====
-- src/websocket: the interactive mode.
pub mod Editor
pub mod Input
