-- ===== src/Chain/Mine.antt =====
-- internal/chain/chain.go. The clock is read where the code reads it, and its readings are
-- arguments; so is the miner, whose law is `IsMiner` and whose implementation is in Miner.
use toy_blockchain.Prelude.{
  ℕ, ◌+◌, ◌%◌, ◌^◌, Option, none, some, List, [], ◌∷◌, ◌++◌, ⊤, Text, length, if◌then◌else◌, ℤ, pos,
  ltb_ℤ, ◌-64◌, Result, ok, err,
}
use toy_blockchain.Crypto.{Crypto}
use toy_blockchain.Config.{Config}
use toy_blockchain.Ledger.Transaction.{Transaction, LedgerError, new_coinbase}
use toy_blockchain.Ledger.State.{State, new_state, clone, apply_all}
use toy_blockchain.Ledger.Mempool.{Mempool, new_mempool, peek, remove, add}
use toy_blockchain.Block.Header.{Block, new_block}
use toy_blockchain.Block.Genesis.{genesis}
use toy_blockchain.Miner.Search.{MinerError, MinerResult}
use toy_blockchain.Chain.Validate.{Stop}
use toy_blockchain.Chain.Validate

pub record Chain : Type 0 where
  pub blocks : List Block
  pub state : State
  pub pool : Mempool
  pub cfg : Config

pub data LoadError : Type 0 where
  invalid : Stop → LoadError
  replaying : ℕ → LedgerError → LoadError

pub data MineError : Type 0 where
  rejected applying : LedgerError → MineError
  search_failed : MinerError → MineError
  panicked : MineError

unfoldable pub new_chain : Crypto → Config → Chain
new_chain c cfg = record {
  blocks = genesis c ∷ [];
  state = new_state;
  pool = new_mempool [];
  cfg = cfg;
}

-- `c.blocks[len(c.blocks)-1]`, which panics on no blocks.
unfoldable pub tip_of : List Block → Option Block
tip_of [] = none
tip_of (b ∷ []) = some b
tip_of (b ∷ d ∷ blocks) = tip_of (d ∷ blocks)

unfoldable pub tip : Chain → Option Block
tip ch = tip_of ch.blocks

-- `buildBody`: the transactions of the next block, and how many of them came off the pool. `none`
-- is the panic of `Peek`.
unfoldable pub build_body : ℤ → Chain → Option (List Transaction × ℕ)
build_body now_nano ch =
    let rewarded = ltb_ℤ (pos 0) ch.cfg.mining_reward in
    let reward = new_coinbase ch.cfg.miner_address ch.cfg.mining_reward now_nano in
    let body = if rewarded then reward ∷ [] else [] in
    let room = if rewarded then ch.cfg.max_tx_per_block -64 pos 1 else ch.cfg.max_tx_per_block in
    elim (peek room ch.pool) [ none ↦ none | some queued ↦ some (body ++ queued, length queued) ]

module _ (c : Crypto) where
  -- The loop of `Load` over the blocks.
  unfoldable pub replay_blocks : List Block → State → Result LoadError State
  replay_blocks [] state = ok state
  replay_blocks (b ∷ blocks) state =
      let rest = replay_blocks blocks (apply_all c b.transactions state).1 in
      elim (apply_all c b.transactions state).0 [ err e ↦ err (replaying b.height e) | ok _ ↦ rest ]

  -- The loop of `Load` over the pending transactions, which drops what `Add` refuses.
  unfoldable pub restore_pending : List Transaction → State → Mempool → Mempool
  restore_pending [] state pool = pool
  restore_pending (tx ∷ pending) state pool = restore_pending pending state (add c tx state pool).1

  unfoldable pub load : Config → List Block → List Transaction → Result LoadError Chain
  load cfg blocks pending = elim (Validate.validate c blocks) [
    | err e ↦ err (invalid e)
    | ok _ ↦ elim (replay_blocks blocks new_state) [
      | err e ↦ err e
      | ok state ↦ ok (record {
        blocks = blocks;
        state = state;
        pool = restore_pending pending state (new_mempool []);
        cfg = cfg;
      })
    ]
  ]

  unfoldable pub add_transaction : Transaction → Chain → Result LedgerError ⊤ × Chain
  add_transaction tx ch =
      let (r, pool) = add c tx ch.state ch.pool in (r, record ch { pool = pool })

  unfoldable pub faucet : Text → ℤ → ℤ → Chain → Result LedgerError ⊤ × Chain
  faucet to amount now_nano = add_transaction (new_coinbase to amount now_nano)

  -- The candidate for the block after the tip.
  unfoldable pub candidate : Block → List Transaction → ℤ → Chain → Block
  candidate tip body now_unix ch =
      new_block c ((tip.height + 1) % 2 ^ 64) tip.hash body ch.cfg.difficulty now_unix

  -- What `Mine` does with the block that was found.
  unfoldable pub append_block : MinerResult → ℕ → Chain → Result MineError MinerResult × Chain
  append_block result from_pool ch =
      let (r, state) = apply_all c result.block.transactions ch.state in
      elim r [
        | err e ↦ (err (applying e), record ch { state = state })
        | ok _ ↦ (
          ok result,
          record ch {
            blocks = ch.blocks ++ result.block ∷ [];
            state = state;
            pool = remove from_pool ch.pool;
          },
        )
      ]

  unfoldable pub mine :
      (Block → Result MinerError MinerResult) → ℤ → ℤ → Chain → Result MineError MinerResult × Chain
  mine search now_nano now_unix ch = elim (build_body now_nano ch) [
    | none ↦ (err panicked, ch)
    | some (body, from_pool) ↦ elim (apply_all c body (clone ch.state)).0 [
      | err e ↦ (err (rejected e), ch)
      | ok _ ↦ elim (tip ch) [
        | none ↦ (err panicked, ch)
        | some last ↦ elim (search (candidate last body now_unix ch)) [
          | err e ↦ (err (search_failed e), ch)
          | ok result ↦ append_block result from_pool ch
        ]
      ]
    ]
  ]

  -- The method `Validate` of a chain.
  unfoldable pub validate_chain : Chain → Result Stop ⊤
  validate_chain ch = Validate.validate c ch.blocks
