-- ===== src/Stringify.antt =====
-- `stringify` of src/vitex/core.cpp: searching, splitting, numeric tests and matching of texts. A text is
-- a list of bytes.
pub mod Find
pub mod Split
pub mod Numeric
pub mod Match
pub mod Trim
pub mod Affix
mod Examples
