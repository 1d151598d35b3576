-- ===== src/Net.antt =====
-- client/src/net: the packet protocol and the WebSocket client.
pub mod Json
pub mod Protocol
pub mod Base64
pub mod Frame
pub mod Send
pub mod Receive
pub mod Worker
