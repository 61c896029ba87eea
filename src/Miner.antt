-- ===== src/Miner.antt =====
-- internal/miner: the proof of work.
pub mod Search
pub mod Proofs
pub mod Smallest
pub mod Progress
pub mod Stopping
pub mod Returns
