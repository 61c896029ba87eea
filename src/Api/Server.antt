-- ===== src/Api/Server.antt =====
-- internal/api/server.go: the server's state, the replies, and the helpers of the handlers. JSON
-- text is left out: a reply is its status with the values that its body shows.
use toy_blockchain.Prelude.{ℕ, Bool, List, ⊤, Text, ℤ, Result}
use toy_blockchain.Crypto.{Crypto}
use toy_blockchain.Config.{Config}
use toy_blockchain.Ledger.Transaction.{Transaction, LedgerError, is_coinbase}
use toy_blockchain.Ledger.Signature.{id}
use toy_blockchain.Block.Header.{Block}
use toy_blockchain.Miner.Search.{MinerResult}
use toy_blockchain.Chain.Mine.{Chain, MineError}
use toy_blockchain.Chain.Validate.{ValidationError}
use toy_blockchain.Store.{Json, Disk, Faults, StoreError, save}
use toy_blockchain.Wallet.{Keystore, WalletError, resolve, label_for}

-- `store` is a path on the disk. The mutex is left out: requests are handled one after the other.
pub record Server : Type 0 where
  pub chain : Chain
  pub store : Text
  pub disk : Disk
  pub wallet : Keystore
  pub cfg : Config

pub record AccountView : Type 0 where
  pub address : Text
  pub label : Text
  pub balance : ℤ

pub record TxView : Type 0 where
  pub id : Text
  pub from : Text
  pub to : Text
  pub amount : ℤ
  pub timestamp : ℤ
  pub coinbase : Bool

pub data ApiError : Type 0 where
  bad_body bad_height no_route no_method : ApiError
  no_block : ℕ → ℕ → ApiError
  from_wallet : WalletError → ApiError
  from_ledger : LedgerError → ApiError
  from_miner : MineError → ApiError
  from_store : StoreError → ApiError

-- The bodies, one constructor for each shape.
pub data Body : Type 0 where
  status_of : ℕ → ℕ → ℕ → ℤ → Body
  whole_chain : ℕ → List Block → Body
  one_block : Block → Body
  valid_chain : ℕ → Body
  broken_chain : ValidationError → Body
  all_balances : List AccountView → ℤ → Body
  one_balance : AccountView → Body
  queued : List TxView → Body
  key_list : List AccountView → Body
  created : Text → Text → Body
  minting : Text → Text → ℤ → Body
  sending : TxView → Body
  mined : MinerResult → Body
  failure : ApiError → Body
  moved_to : Text → Body

-- `aborted` is a panic in a handler: net/http recovers it and drops the connection.
pub data Reply : Type 0 where
  reply : ℕ → Body → Reply
  aborted : Reply

abbrev pub write_error : ℕ → ApiError → Reply
write_error status e = reply status (failure e)

unfoldable pub persist : Json → Faults → Server → Result StoreError ⊤ × Server
persist json faults s =
    let (r, disk) = save json faults s.store s.chain.blocks s.chain.pool.pending s.disk in
    (r, record s { disk = disk })

module _ (c : Crypto) where
  unfoldable pub account : Server → Text → Text × Text
  account s label_or_address =
      let address = resolve c label_or_address s.wallet in (address, label_for c address s.wallet)

  unfoldable pub tx_view : Transaction → TxView
  tx_view tx = record {
    id = id c tx;
    from = tx.from;
    to = tx.to;
    amount = tx.amount;
    timestamp = tx.timestamp;
    coinbase = is_coinbase tx;
  }
