-- ===== src/WebSocket.antt =====
-- Websocket messages of src/vitex/network/http.cpp: the header that `web_socket_frame::send` writes and
-- the state machine of `web_codec` that reads it back.
pub mod Codec
pub mod Frame
pub mod Messages
pub mod Fragments
pub mod Split
pub mod Sending
pub mod Update
mod Examples
