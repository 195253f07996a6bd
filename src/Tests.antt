-- ===== src/Tests.antt =====
-- The theorems at concrete inputs, and runs of the code, one module for each part of the program.
pub mod Fixtures
pub mod Transactions
pub mod Pool
pub mod Quorums
pub mod Stakes
pub mod Packets
pub mod Vertices
pub mod Nodes
pub mod Ledgers
pub mod Requests
pub mod Faucets
pub mod Wallets
pub mod Messages
