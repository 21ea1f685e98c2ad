-- ===== src/Swap/Clients.antt =====
-- The clients of pkg/escrow/swap for elementsd (rpc.go, htlc.go) and LND (lnd.go), over HTTP, and
-- for Core Lightning (cln.go), over a command. JSON
-- values are a data type; their text, as encoding/json writes and reads it, is the parameter `JsonText`.
pub mod Json
pub mod Amount
pub mod Http
pub mod Elementsd
pub mod Lnd
pub mod Cln
pub mod Stream
pub mod Paying
pub mod Implementation
