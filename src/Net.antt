-- ===== src/Net.antt =====
-- assets/js/net.js: the codec of the messages and the client's side of the conversation.
pub mod Utf8
pub mod Packet
pub mod Messages
