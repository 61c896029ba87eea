-- ===== src/Cli.antt =====
-- internal/cli and internal/bench: one command for each run of the program.
pub mod Flags
pub mod App
pub mod Keys
pub mod StoredKeys
pub mod Remembering
pub mod Usage
pub mod Bench
pub mod Commands
pub mod Run
pub mod Reopen
pub mod Persistence
pub mod Opening
pub mod Keeping
pub mod Lasting
