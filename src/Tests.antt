-- ===== src/Tests.antt =====
-- Concrete libraries that satisfy the hypotheses of the theorems, and the theorems applied to them.
mod Library
mod Txscript
mod Interpreter
mod Deals
mod Addresses
mod Scripts
mod Stores
mod Texts
mod Commands
mod Programs
mod Fundings
mod Releases
mod Engine
mod Recoveries
mod Clients
mod Claims
mod Swaps
