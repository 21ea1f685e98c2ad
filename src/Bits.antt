-- ===== src/Bits.antt =====
-- Bitwise operations of Go's unsigned integers at variables: exclusive or, masks and fields.
mod Digits
pub mod Xor
pub mod Stream
pub mod Masks
