-- ===== src/Bits.antt =====
-- The bit operations of C at variables: one equation for the lowest digit, and what follows from it.
pub mod Digits
pub mod Mask
pub mod Xor
pub mod Zero
