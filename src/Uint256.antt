-- ===== src/Uint256.antt =====
-- `uint256` of src/vitex/compute.cpp: a child for each group of its operations.
pub mod Word
pub mod Arith
pub mod Multiply
pub mod Shift
pub mod Width
pub mod Encoding
pub mod Logic
pub mod Divide
pub mod Refinement
mod Examples
