-- ===== src/Ledger.antt =====
-- internal/ledger: transactions, signatures, account balances, the pool of pending transactions.
pub mod Transaction
pub mod Signature
pub mod State
pub mod Mempool
pub mod Balances
pub mod Encoding
pub mod Authority
pub mod Signing
pub mod Moves
pub mod Replay
pub mod Pool
pub mod Refinement
pub mod Monotone
pub mod Malleable
pub mod Listing
pub mod Unique
pub mod Unordered
