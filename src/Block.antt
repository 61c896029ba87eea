-- ===== src/Block.antt =====
-- internal/block: blocks, their hashes, Merkle roots and the genesis block.
pub mod Merkle
pub mod Header
pub mod Genesis
pub mod Tree
pub mod Binding
pub mod Commitment
pub mod Link
