-- ===== src/Chain/Alive.antt =====
-- The calls of internal/chain/chain.go in sequence: the pool stays affordable, so that Mine is
-- never blocked by what is queued.
use mathlib.Core.Path.{subst}
use toy_blockchain.Prelude.{
  ◌+◌, ◌≤◌, ◌≡◌, ◌⊎◌, refl, sym, ap, ◌∙◌, ◌∷◌, [], ◌++◌, ℤ, pos_part, max_int64, Result, ok, err,
  inl, inr,
}
use toy_blockchain.Crypto.{Crypto}
use toy_blockchain.Config.{Config}
use toy_blockchain.Config.Bounds.{IsUsable}
use toy_blockchain.Ledger.Transaction.{Transaction, new_coinbase, valid_address, recipient}
use toy_blockchain.Ledger.Moves.{coins}
use toy_blockchain.Ledger.Replay.{minted_all}
use toy_blockchain.Ledger.Mempool.{new_mempool}
use toy_blockchain.Ledger.Pool.{IsQueued, add_exact}
use toy_blockchain.Block.Header.{Block}
use toy_blockchain.Miner.Search.{MinerError, MinerResult}
use toy_blockchain.Miner.Proofs.{IsMiner}
use toy_blockchain.Chain.Mine.{Chain, new_chain, search_failed, add_transaction, faucet, mine}
use toy_blockchain.Chain.Mining.{IsConsistent, state-IsSound, mine_all_or_nothing}
use toy_blockchain.Chain.Reload.{new_chain-IsConsistent}
use toy_blockchain.Chain.Reach.{Step, queue, mint, extend, Step-IsConsistent}
use toy_blockchain.Chain.Progress.{mine_progress}

-- The coins of the balances, one reward and what the pool mints are not more than an int64 holds.
abbrev pub HasRoom : Chain → Type 0
HasRoom ch = coins ch.state + pos_part ch.cfg.mining_reward + minted_all ch.pool.pending ≤ max_int64

-- The chains that calls lead to from a new one, as long as every chain on the way has room.
pub data Lived (c : Crypto) (cfg : Config) : Chain → Type 0 where
  fresh : Lived c cfg (new_chain c cfg)
  onward : {ch ch' : Chain} → Lived c cfg ch → HasRoom ch → Step c ch ch' → Lived c cfg ch'

module _ (c : Crypto) (cfg : Config) (usable : IsUsable cfg)
    (address : valid_address recipient cfg.miner_address ≡ ok tt) where
  record IsAlive (ch : Chain) : Type 0 where
    consistent : IsConsistent c ch
    queued : IsQueued c ch.pool ch.state
    settings : ch.cfg ≡ cfg

  add_transaction-IsAlive :
      (tx : Transaction) (ch : Chain) → IsAlive ch → IsAlive (add_transaction c tx ch).1
  unfolding add_transaction
  add_transaction-IsAlive tx ch alive =
      let sound = state-IsSound c ch alive.consistent in
      record {
        consistent = Step-IsConsistent c ch _ alive.consistent (queue tx);
        queued = elim (add_exact c tx ch.state ch.pool sound) [
          | inl (a, e) ↦ subst (λ p. IsQueued c p.1 ch.state) (sym e) a
          | inr (e, r, _) ↦ subst (λ p. IsQueued c p.1 ch.state) (sym r) alive.queued
        ];
        settings = alive.settings;
      }

  mine-settings :
      (search : Block → Result MinerError MinerResult) (law : IsMiner c search) (nano unix : ℤ)
      (ch : Chain)
      → IsConsistent c ch
      → (mine c search nano unix ch).1.cfg ≡ ch.cfg
  mine-settings search law nano unix ch inv =
      elim (mine_all_or_nothing c search law nano unix ch inv) [
        | inl (r, ch', e, m) ↦ ap (λ p. p.1.cfg) e ∙ ap (λ d. d.cfg) m.left
        | inr (e, r) ↦ ap (λ p. p.1.cfg) r
      ]

  alive_progress :
      (search : Block → Result MinerError MinerResult) (law : IsMiner c search) (nano unix : ℤ)
      (ch : Chain)
      → IsAlive ch
      → HasRoom ch
      → ((r : MinerResult) × (ch' : Chain) × (mine c search nano unix ch ≡ (ok r, ch'))
          × (ch'.blocks ≡ ch.blocks ++ r.block ∷ [])
          × IsQueued c ch'.pool ch'.state)
        ⊎ ((e : MinerError) × (b : Block) × (search b ≡ err e)
            × (mine c search nano unix ch ≡ (err (search_failed e), ch)))
  alive_progress search law nano unix ch alive =
      mine_progress c search law nano unix ch alive.consistent alive.queued
        (subst IsUsable (sym alive.settings) usable)
        (ap (λ (g : Config). valid_address recipient g.miner_address) alive.settings ∙ address)

  Step-IsAlive : (ch ch' : Chain) → IsAlive ch → HasRoom ch → Step c ch ch' → IsAlive ch'
  unfolding faucet
  Step-IsAlive ch _ alive room (queue tx) = add_transaction-IsAlive tx ch alive
  Step-IsAlive ch _ alive room (mint to amount nano) =
      add_transaction-IsAlive (new_coinbase to amount nano) ch alive
  Step-IsAlive ch _ alive room (extend search nano unix law on_time) = record {
    consistent = Step-IsConsistent c ch _ alive.consistent (extend search nano unix law on_time);
    queued = elim (alive_progress search law nano unix ch alive room) [
      | inl (r, ch', e, _, q) ↦ subst (λ p. IsQueued c p.1.pool p.1.state) (sym e) q
      | inr (e, b, _, r) ↦ subst (λ p. IsQueued c p.1.pool p.1.state) (sym r) alive.queued
    ];
    settings = mine-settings search law nano unix ch alive.consistent ∙ alive.settings;
  }

  new_chain-IsAlive : IsAlive (new_chain c cfg)
  unfolding new_chain new_mempool
  new_chain-IsAlive = record {
    consistent = new_chain-IsConsistent c cfg;
    queued = tt;
    settings = refl;
  }

  Lived-IsAlive : (ch : Chain) → Lived c cfg ch → IsAlive ch
  Lived-IsAlive _ fresh = new_chain-IsAlive
  Lived-IsAlive _ (onward {ch} {ch'} l room s) = Step-IsAlive ch ch' (Lived-IsAlive ch l) room s

  -- Under usable settings and a miner address that keeps the address rules: after any sequence of
  -- AddTransaction, Faucet and Mine on a new chain, successful or not, with the clock never behind
  -- the tip at a Mine and with room for the coins on the way, the next Mine fails only if the miner
  -- does, and then changes nothing. Otherwise it appends the block that was found. What waits in the
  -- pool never blocks it.
  pub Lived-mine :
      (ch : Chain)
      → Lived c cfg ch
      → HasRoom ch
      → (search : Block → Result MinerError MinerResult) → IsMiner c search
      → (nano unix : ℤ)
      → ((r : MinerResult) × (ch' : Chain) × (mine c search nano unix ch ≡ (ok r, ch'))
          × (ch'.blocks ≡ ch.blocks ++ r.block ∷ [])
          × IsQueued c ch'.pool ch'.state)
        ⊎ ((e : MinerError) × (b : Block) × (search b ≡ err e)
            × (mine c search nano unix ch ≡ (err (search_failed e), ch)))
  Lived-mine ch l room search law nano unix =
      alive_progress search law nano unix ch (Lived-IsAlive ch l) room
