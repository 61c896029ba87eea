-- ===== src/Chain/Stuck.antt =====
-- Mine of internal/chain/chain.go under settings whose miner address breaks the address rules, which
-- Validate of internal/config/config.go does not test.
use toy_blockchain.Prelude.{◌≡◌, true, List, ◌∷◌, arith, ℤ, pos, ltb_ℤ, Result, err, text_eq}
use toy_blockchain.Crypto.{Crypto}
use toy_blockchain.Config.Bounds.{IsUsable}
use toy_blockchain.Ledger.Transaction.{
  Transaction, LedgerError, in_transaction, new_coinbase, is_coinbase, valid_address, recipient,
}
use toy_blockchain.Ledger.Signature.{validate}
use toy_blockchain.Ledger.State.{State, can_apply, apply, apply_from, apply_all, clone}
use toy_blockchain.Block.Header.{Block}
use toy_blockchain.Miner.Search.{MinerError, MinerResult}
use toy_blockchain.Chain.Mine.{Chain, rejected, mine}
use toy_blockchain.Chain.Progress.{body_parts}

fee_invalid :
    (c : Crypto) (nano : ℤ) (ch : Chain) (e : LedgerError)
    → valid_address recipient ch.cfg.miner_address ≡ err e
    → ltb_ℤ (pos 0) ch.cfg.mining_reward ≡ true
    → validate c (new_coinbase ch.cfg.miner_address ch.cfg.mining_reward nano) ≡ err e
unfolding validate new_coinbase is_coinbase text_eq
fee_invalid c nano ch e address rewarded = ground (arith, address)

first_refused :
    (c : Crypto) (tx : Transaction) (txs : List Transaction) (s : State) (e : LedgerError)
    → validate c tx ≡ err e
    → (apply_all c (tx ∷ txs) s).0 ≡ err (in_transaction 0 tx e)
unfolding apply_all apply_from apply can_apply
first_refused c tx txs s e h = ground (arith, h)

-- Under usable settings with a reward and a miner address that breaks the address rules, every
-- `Mine`, whatever the miner would find, is refused for its own reward and changes nothing.
pub mine_stuck :
    (c : Crypto) (search : Block → Result MinerError MinerResult) (nano unix : ℤ) (ch : Chain)
    (e : LedgerError)
    → IsUsable ch.cfg
    → ltb_ℤ (pos 0) ch.cfg.mining_reward ≡ true
    → valid_address recipient ch.cfg.miner_address ≡ err e
    → let reward = new_coinbase ch.cfg.miner_address ch.cfg.mining_reward nano in
      mine c search nano unix ch ≡ (err (rejected (in_transaction 0 reward e)), ch)
unfolding mine
mine_stuck c search nano unix ch e usable rewarded address =
    let (m, size, positive, small) = usable.max_tx in
    let (q, built, _) = body_parts nano ch m size small positive in
    let reward = new_coinbase ch.cfg.miner_address ch.cfg.mining_reward nano in
    let refused =
      first_refused c reward q (clone ch.state) e (fee_invalid c nano ch e address rewarded) in
    ground (arith, built, rewarded, refused)
