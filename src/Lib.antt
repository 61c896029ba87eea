-- ===== src/Lib.antt =====
-- A model of a small proof-of-work blockchain, with the theorems that make it correct.
--
-- The program keeps a list of blocks, the balances that follow from them, and a pool of pending
-- transactions. A wallet signs transfers, the pool queues what is affordable, the miner searches for
-- a nonce, the chain appends what was found, and validation rechecks everything from the genesis
-- block on; the store writes the blocks and the pool to a file and reads them back.
--
-- Which file models what:
-- - Prelude and Go: the shared helpers; int64 with its wrap-around (Prelude.Int), results
--   (Prelude.Results), strings as lists of bytes (Prelude.Strings); decimal and hexadecimal text and
--   maps of Go and its library (Go.Decimal, Go.Hex, Go.Map).
-- - Crypto: SHA-256 and ed25519, which the program calls. They are the record `Crypto` of functions,
--   and `IsCrypto` says what their documentation promises: lengths, bytes, and that a signature
--   verifies under its own key. That SHA-256 has no collisions is assumed nowhere; where a theorem
--   depends on it, its conclusion names the two strings that would collide.
-- - Ledger.Transaction, Ledger.Signature: internal/ledger/transaction.go and signature.go.
-- - Ledger.State, Ledger.Mempool: internal/ledger/state.go and mempool.go. A method that changes its
--   receiver returns the new one beside its error. Go's maps are lists of entries; Ledger.Unordered
--   is about their order. The other files of Ledger hold proofs.
-- - Block.Merkle, Block.Header, Block.Genesis: internal/block/merkle.go, block.go and genesis.go.
-- - Miner.Search: internal/miner/miner.go. The goroutines are workers, and a run is a schedule, a
--   list of turns and cancellations. Miner.Proofs holds for every schedule, Miner.Stopping and
--   Miner.Returns say which schedules let MineWith return.
-- - Chain.Mine, Chain.Validate: internal/chain/chain.go and validate.go. Clock readings are
--   arguments, and so is the miner, of which the chain asks only `IsMiner`.
-- - Chain.Reach, Chain.Alive: the calls on a chain as step relations; Chain.Storable: what a chain file
--   holds. The other files of Chain hold proofs.
-- - Config, DotEnv: internal/config/config.go and dotenv.go; Config.Load is Load with both.
-- - Store, Wallet: internal/store/store.go and internal/wallet/wallet.go, the latter with the
--   keystore file in Wallet.Saving. The disk is a map that holds both files, from paths as texts: two
--   different texts are two files. JSON is a parameter, and the failures of the file system are
--   arguments.
-- - World: what one request or command gets from outside.
-- - Api.Server, Api.Handlers, Api.Router: internal/api/server.go and handlers.go. A handler returns its
--   reply and the server as it leaves it; the mutex is the order of the requests. The bodies of
--   requests are what readJSON decodes, and the path that net/http redirects to, where it cleans the path
--   of a request, is a part of the request. Api.Errors is jsonErrors, and Api.Listening is
--   New and ListenAndServe. The other files of Api hold proofs.
-- - Cli.Flags, Cli.App, Cli.Run: internal/cli/cli.go, with the parsing that package flag and strconv do
--   for it; Cli.Commands: internal/cli/commands.go; Cli.Bench: internal/bench/bench.go.
--   Cli.Usage has the help and the texts of print and pending. The other files of Cli hold proofs.
-- - Tests: concrete inputs, with small stand-ins for the cryptography and for JSON that meet
--   their laws.
--
-- Bounds and fuel. `uint64` fields are numbers whose increments are reduced by 2 ^ 64, `int64` and
-- `int` fields are integers reduced to 64 bits with sign. The rounds of the Merkle tree are fuel, as
-- many as there are nodes, and Block.Tree shows that this reaches the root; the decimal digits of n
-- have n + 1 rounds, which Go.Decimal shows to be enough by reading the number back. A panic is a value
-- of its own: a negative count for Peek, a negative difficulty, a chain without blocks.
--
-- How the parts interact: a server or a command holds a chain, a path on the disk and a wallet. It
-- resolves names in the wallet, calls the chain, and saves the blocks and the pool of the chain that
-- the call left; the next run loads them and validates every block again.
--
-- Not modelled: JSON text, and of what the CLI prints the columns, quoted strings and floating-point
-- figures; the network, of which only the ways in which serving ends are told apart; the
-- floating-point figures of internal/bench; the generation of keys, the text of error messages,
-- timing, and file permissions.
pub mod Prelude
pub mod Go
pub mod Crypto
pub mod Ledger
pub mod Block
pub mod Miner
pub mod Config
pub mod DotEnv
pub mod Chain
pub mod Store
pub mod Wallet
pub mod World
pub mod Api
pub mod Cli
pub mod Tests
