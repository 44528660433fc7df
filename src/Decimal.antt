-- ===== src/Decimal.antt =====
-- `decimal` of src/vitex/core.cpp: numbers of any length in base ten.
pub mod Digits
pub mod Number
pub mod Order
pub mod Arith
pub mod Round
pub mod Text
pub mod Division
mod Examples
pub mod Radix
