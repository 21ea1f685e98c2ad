-- ===== src/Swap.antt =====
-- pkg/escrow/swap: transactions that spend a taproot output, and their witnesses.
pub mod Witness
pub mod Pset
pub mod Claim
pub mod Services
pub mod Htlc
pub mod Fund
pub mod Payout
pub mod Clients
