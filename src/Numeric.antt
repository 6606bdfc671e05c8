-- ===== src/Numeric.antt =====
-- execution/src/numeric-abi.mjs: the layout of kernel parameters, and the rounding of a JavaScript
-- number, given by the 64 bits of its double, to the 16 bits of f16 and bf16.
pub mod Bits
pub mod Rounding
pub mod Encode
pub mod Nearest
pub mod Codes
pub mod Layout
pub mod Scalars
pub mod Packing
mod Tests
