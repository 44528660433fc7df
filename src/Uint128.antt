-- ===== src/Uint128.antt =====
-- `uint128` of src/vitex/compute.cpp: a child for each group of its operations.
pub mod Word
pub mod Arith
pub mod Shift
pub mod Multiply
pub mod Logic
pub mod Divide
pub mod Width
pub mod Encoding
pub mod Refinement
mod Examples
