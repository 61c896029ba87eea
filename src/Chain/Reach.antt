-- ===== src/Chain/Reach.antt =====
-- The calls that change a chain (internal/chain/chain.go), as a step relation, and what every
-- sequence of them preserves.
use mathlib.Core.Path.{subst}
use toy_blockchain.Prelude.{◌≡◌, ◌⊎◌, sym, ap, false, some, Text, ℤ, ltb_ℤ, Result, ok, inl, inr}
use toy_blockchain.Crypto.{Crypto}
use toy_blockchain.Config.{Config}
use toy_blockchain.Ledger.Transaction.{Transaction, new_coinbase}
use toy_blockchain.Block.Header.{Block}
use toy_blockchain.Miner.Search.{MinerError, MinerResult}
use toy_blockchain.Miner.Proofs.{IsMiner}
use toy_blockchain.Chain.Validate.{validate}
use toy_blockchain.Chain.Mine.{Chain, new_chain, tip, add_transaction, faucet, mine}
use toy_blockchain.Chain.Valid.{validate_exact}
use toy_blockchain.Chain.Mining.{IsConsistent, mine_all_or_nothing}
use toy_blockchain.Chain.Growth.{mine-IsConsistent}
use toy_blockchain.Chain.Reload.{new_chain-IsConsistent}

-- The clock is not behind the tip.
abbrev pub InTime : ℤ → Chain → Type 0
InTime unix ch = (t : Block) → tip ch ≡ some t → ltb_ℤ unix t.timestamp ≡ false

-- One call, successful or not. `Mine` is called while the clock is not behind the tip.
pub data Step (c : Crypto) (ch : Chain) : Chain → Type 0 where
  queue : (tx : Transaction) → Step c ch (add_transaction c tx ch).1
  mint : (to : Text) (amount nano : ℤ) → Step c ch (faucet c to amount nano ch).1
  extend :
      (search : Block → Result MinerError MinerResult) (nano unix : ℤ)
      → IsMiner c search
      → InTime unix ch
      → Step c ch (mine c search nano unix ch).1

-- The chains that calls lead to from a new one.
pub data Reached (c : Crypto) (cfg : Config) : Chain → Type 0 where
  begin : Reached c cfg (new_chain c cfg)
  later : {ch ch' : Chain} → Reached c cfg ch → Step c ch ch' → Reached c cfg ch'

module _ (c : Crypto) where
  pub add_transaction-IsConsistent :
      (tx : Transaction) (ch : Chain)
      → IsConsistent c ch
      → IsConsistent c (add_transaction c tx ch).1
  unfolding add_transaction
  add_transaction-IsConsistent tx ch inv = record { valid = inv.valid; derived = inv.derived }

  pub faucet-IsConsistent :
      (to : Text) (amount nano : ℤ) (ch : Chain)
      → IsConsistent c ch
      → IsConsistent c (faucet c to amount nano ch).1
  unfolding faucet
  faucet-IsConsistent to amount nano ch inv =
      add_transaction-IsConsistent (new_coinbase to amount nano) ch inv

  pub mine_call-IsConsistent :
      (search : Block → Result MinerError MinerResult) (nano unix : ℤ) (ch : Chain)
      → IsMiner c search
      → InTime unix ch
      → IsConsistent c ch
      → IsConsistent c (mine c search nano unix ch).1
  mine_call-IsConsistent search nano unix ch law on_time inv =
      elim (mine_all_or_nothing c search law nano unix ch inv) [
        | inl (r, ch', e, m) ↦ subst (IsConsistent c) (sym (ap (λ p. p.1) e)) (
            mine-IsConsistent c search law nano unix ch inv r ch' m (on_time m.last_block m.at_tip))
        | inr (e, q) ↦ subst (IsConsistent c) (sym (ap (λ p. p.1) q)) inv
      ]

  pub Step-IsConsistent : (ch ch' : Chain) → IsConsistent c ch → Step c ch ch' → IsConsistent c ch'
  Step-IsConsistent ch _ inv (queue tx) = add_transaction-IsConsistent tx ch inv
  Step-IsConsistent ch _ inv (mint to amount nano) = faucet-IsConsistent to amount nano ch inv
  Step-IsConsistent ch _ inv (extend search nano unix law on_time) =
      mine_call-IsConsistent search nano unix ch law on_time inv

  -- Whatever sequence of AddTransaction, Faucet and Mine is called on a new chain, successful or
  -- not, as long as no call of Mine finds the clock behind the tip: the balances that the chain
  -- keeps are those of its blocks, and Validate accepts it.
  pub Reached-IsConsistent :
      (cfg : Config) (ch : Chain)
      → Reached c cfg ch
      → IsConsistent c ch × (validate c ch.blocks ≡ ok tt)
  Reached-IsConsistent cfg ch r =
      let inv = go ch r in (inv, (validate_exact c ch.blocks).1 inv.valid)
    where
      go : (ch : Chain) → Reached c cfg ch → IsConsistent c ch
      go _ begin = new_chain-IsConsistent c cfg
      go _ (later {ch} {ch'} r s) = Step-IsConsistent ch ch' (go ch r) s

  -- The chain is as it was, or one call further.
  abbrev pub Moved : Chain → Chain → Type 0
  Moved ch ch' = (ch' ≡ ch) ⊎ Step c ch ch'

  pub Moved-IsConsistent : (ch ch' : Chain) → IsConsistent c ch → Moved ch ch' → IsConsistent c ch'
  Moved-IsConsistent ch ch' inv (inl same) = subst (IsConsistent c) (sym same) inv
  Moved-IsConsistent ch ch' inv (inr s) = Step-IsConsistent ch ch' inv s
