-- ===== src/Bech32.antt =====
-- pkg/escrow/bech32.go: bech32 and bech32m addresses.
pub mod Convert
pub mod Runes
pub mod Polymod
pub mod Address
