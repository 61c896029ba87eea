-- ===== src/World.antt =====
-- What one request of the API, or one command of the CLI, gets from outside: the clock, the miner
-- under the caller's context, the random source, and the file system.
use toy_blockchain.Prelude.{Bool, Option, ℤ, Result}
use toy_blockchain.Ledger.Signature.{KeyPair}
use toy_blockchain.Block.Header.{Block}
use toy_blockchain.Miner.Search.{MinerError, MinerResult}
use toy_blockchain.Store.{Faults}
use toy_blockchain.Wallet.Saving.{Writing}

pub record World : Type 0 where
  -- time.Now().UnixNano() and time.Now().Unix()
  pub now_nano : ℤ
  pub now_unix : ℤ
  pub search : Block → Result MinerError MinerResult
  -- what GenerateKey returns, and what the file system does to the saving of the keystore
  pub generated : Option KeyPair
  pub no_key_dir : Bool
  pub key_writing : Writing
  -- what the file system does to the saving of the chain
  pub faults : Faults
