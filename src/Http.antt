-- ===== src/Http.antt =====
-- The bodies of messages: `parser` of src/vitex/network/http.cpp.
pub mod Chunked
mod Examples
