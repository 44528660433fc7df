-- ===== src/Codec.antt =====
-- The text codecs of `codec` in src/vitex/compute.cpp. A text is a list of bytes.
pub mod Chars
pub mod Base64
pub mod Url
pub mod Hex
pub mod Number
pub mod Utf8
mod Examples
