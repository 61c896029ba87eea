-- ===== src/Tests.antt =====
-- Concrete inputs: runs of the modelled code, and each theorem applied where its hypotheses hold.
pub mod Toy
pub mod Ledger
pub mod Block
pub mod Chain
pub mod Store
pub mod Progress
pub mod Json
pub mod Api
pub mod Cli
pub mod Keys
