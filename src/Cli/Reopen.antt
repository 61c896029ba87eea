-- ===== src/Cli/Reopen.antt =====
-- From one run of the program to the next: what was saved can be opened again.
use toy_blockchain.Prelude.{◌∙◌, ◌≡◌, sym, ap, false, some, ok, arith}
use toy_blockchain.Crypto.{Crypto}
use toy_blockchain.Go.Map.{lookup}
use toy_blockchain.Config.{Config}
use toy_blockchain.Ledger.Pool.{IsQueued}
use toy_blockchain.Chain.Mine.{Chain}
use toy_blockchain.Chain.Mine
use toy_blockchain.Chain.Mining.{IsConsistent}
use toy_blockchain.Chain.Reload.{load_keeps, load_restores}
use toy_blockchain.Store.{Json, Disk, contents, Fits, load-contents}
use toy_blockchain.Cli.App.{open_chain}

module _ (c : Crypto) (json : Json) (cfg : Config) (disk : Disk) (ch : Chain) where
  opened :
      (ch' : Chain)
      → lookup cfg.data_file disk ≡ some (contents json ch.blocks ch.pool.pending)
      → Fits json ch.blocks ch.pool.pending
      → Mine.load c cfg ch.blocks ch.pool.pending ≡ ok ch'
      → open_chain c json cfg false disk ≡ ok ch'
  unfolding open_chain
  opened ch' there fits loaded =
      ground
        (arith, load-contents json cfg.data_file ch.blocks ch.pool.pending disk there fits, loaded)

  -- If the chain file holds a consistent chain, in an encoding that JSON reads back, then the next
  -- run opens it, with the same blocks and balances; and with the same pool too, so that it is the
  -- chain itself, if the pool is accepted on the balances and the settings are the same.
  pub reopen :
      IsConsistent c ch
      → lookup cfg.data_file disk ≡ some (contents json ch.blocks ch.pool.pending)
      → Fits json ch.blocks ch.pool.pending
      → ((ch' : Chain) × (open_chain c json cfg false disk ≡ ok ch')
          × (ch'.blocks ≡ ch.blocks)
          × (ch'.state ≡ ch.state))
        × (IsQueued c ch.pool ch.state → ch.cfg ≡ cfg → open_chain c json cfg false disk ≡ ok ch)
  reopen inv there fits =
      let (ch', loaded, blocks, state) = load_keeps c cfg ch.pool.pending ch inv in
      (
        (ch', opened ch' there fits loaded, blocks, state),
        λ queued same. opened ch there fits (
            ap (λ g. Mine.load c g ch.blocks ch.pool.pending) (sym same)
            ∙ load_restores c ch inv queued),
      )
