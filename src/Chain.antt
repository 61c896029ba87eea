-- ===== src/Chain.antt =====
-- internal/chain: the list of blocks with the balances and the pool, and its validation.
pub mod Validate
pub mod Mine
pub mod Body
pub mod Valid
pub mod Extend
pub mod Mining
pub mod Growth
pub mod Reload
pub mod Reach
pub mod Storable
pub mod Progress
pub mod Suffix
pub mod History
pub mod Stuck
pub mod Alive
