-- ===== src/Chain/Reload.antt =====
-- New and Load of internal/chain/chain.go: what a chain that was just made or read back satisfies,
-- and that reading back what was saved gives the same chain.
use mathlib.Core.Path.{subst}
use toy_blockchain.Prelude.{
  ◌≡◌, refl, ap, sym, ◌∙◌, inl, inr, Option, none, some, List, [], ◌∷◌, ◌++◌, arith, ok, err,
  Result-cases, append_assoc, append-nil,
}
use toy_blockchain.Crypto.{Crypto}
use toy_blockchain.Config.{Config}
use toy_blockchain.Ledger.Transaction.{Transaction}
use toy_blockchain.Ledger.State.{State, new_state}
use toy_blockchain.Ledger.Mempool.{Mempool, new_mempool, add}
use toy_blockchain.Ledger.Balances.{IsSound}
use toy_blockchain.Ledger.Replay.{Accepted, run, apply_all-ok}
use toy_blockchain.Ledger.Pool.{IsQueued, Accepted-split, add_exact, run-IsSound}
use toy_blockchain.Block.Merkle.{merkle_root}
use toy_blockchain.Block.Header.{
  Block, new_block, compute_hash, meets_difficulty, has_prefix, hash_preimage,
}
use toy_blockchain.Block.Genesis.{genesis, genesis_prev_hash}
use toy_blockchain.Chain.Validate
use toy_blockchain.Chain.Validate.{Stop}
use toy_blockchain.Chain.Mine.{Chain, new_chain, load, replay_blocks, restore_pending, invalid}
use toy_blockchain.Chain.Valid.{
  IsSealed, ValidFrom, IsValidChain, validate_exact, new_state-IsSound,
}
use toy_blockchain.Chain.Extend.{chain_state}
use toy_blockchain.Chain.Mining.{IsConsistent, state-IsSound}

module _ (c : Crypto) where
  genesis-IsSealed : IsSealed c (genesis c)
  unfolding genesis new_block compute_hash hash_preimage meets_difficulty has_prefix merkle_root
  genesis-IsSealed = record { merkle = refl; hash = refl; work = ground arith }

  -- The genesis block alone is a valid chain, and a new chain is consistent, whatever its settings.
  pub new_chain-IsConsistent : (cfg : Config) → IsConsistent c (new_chain c cfg)
  unfolding new_chain
  new_chain-IsConsistent cfg = record {
    valid = (refl, genesis_link, (tt, genesis-IsSealed, genesis_accepted, tt));
    derived = genesis_state;
  }
    where
      genesis_link : (genesis c).prev_hash ≡ genesis_prev_hash
      genesis_link = unfold genesis new_block in refl

      genesis_accepted : Accepted c (genesis c).transactions new_state
      genesis_accepted = unfold genesis new_block in tt

      genesis_state : new_state ≡ run (genesis c).transactions new_state
      genesis_state = unfold genesis new_block in refl

  replay_blocks-ValidFrom :
      (p : Option Block) (bs : List Block) (s : State)
      → IsSound s
      → ValidFrom c p bs s
      → replay_blocks c bs s ≡ ok (chain_state bs s)
  unfolding replay_blocks
  replay_blocks-ValidFrom p [] s h v = refl
  replay_blocks-ValidFrom p (b ∷ bs) s h (l, e, a, v) = ground (
    arith,
    apply_all-ok c b.transactions s h a,
    replay_blocks-ValidFrom (some b) bs (run b.transactions s) (run-IsSound c b.transactions s h a)
        v,
  )

  restore_pending-IsQueued :
      (txs : List Transaction) (s : State) (m : Mempool)
      → IsSound s
      → IsQueued c m s
      → IsQueued c (restore_pending c txs s m) s
  unfolding restore_pending
  restore_pending-IsQueued [] s m h q = q
  restore_pending-IsQueued (tx ∷ txs) s m h q = elim (add_exact c tx s m h) [
    | inl (a, r) ↦
        restore_pending-IsQueued txs s (add c tx s m).1 h (subst (λ p. IsQueued c p.1 s) (sym r) a)
    | inr (e, r, refused) ↦
        restore_pending-IsQueued txs s (add c tx s m).1 h (subst (λ p. IsQueued c p.1 s) (sym r) q)
  ]

  restore_pending-all :
      (txs done : List Transaction) (s : State)
      → IsSound s
      → Accepted c (done ++ txs) s
      → restore_pending c txs s (record { pending = done }) ≡ record { pending = done ++ txs }
  unfolding restore_pending
  restore_pending-all [] done s h a = ap (λ l. record { pending = l }) (sym (append-nil done))
  restore_pending-all (tx ∷ txs) done s h a =
      let grown = subst (λ l. Accepted c l s) (sym (append_assoc done (tx ∷ []) txs)) a in
      elim (add_exact c tx s (record { pending = done }) h) [
        | inl (a', r) ↦
            ap (λ p. restore_pending c txs s p.1) r
            ∙ restore_pending-all txs (done ++ tx ∷ []) s h grown
            ∙ ap (λ l. record { pending = l }) (append_assoc done (tx ∷ []) txs)
        | inr (e, r, refused) ↦ absurd (refused (Accepted-split c (done ++ tx ∷ []) txs s grown).0)
      ]

  restored : Config → List Block → List Transaction → Chain
  restored cfg blocks pending = record {
    blocks = blocks;
    state = chain_state blocks new_state;
    pool = restore_pending c pending (chain_state blocks new_state) (new_mempool []);
    cfg = cfg;
  }

  replayed :
      (blocks : List Block)
      → IsValidChain c blocks
      → replay_blocks c blocks new_state ≡ ok (chain_state blocks new_state)
  replayed [] v = absurd v
  replayed (b ∷ bs) v = replay_blocks-ValidFrom none (b ∷ bs) new_state new_state-IsSound v.2

  load-ok :
      (cfg : Config) (blocks : List Block) (pending : List Transaction)
      → IsValidChain c blocks
      → load c cfg blocks pending ≡ ok (restored cfg blocks pending)
  unfolding load restored
  load-ok cfg blocks pending v = ground (arith, (validate_exact c blocks).1 v, replayed blocks v)

  restored-IsConsistent :
      (cfg : Config) (blocks : List Block) (pending : List Transaction)
      → IsValidChain c blocks
      → IsConsistent c (restored cfg blocks pending)
  unfolding restored
  restored-IsConsistent cfg blocks pending v = record { valid = v; derived = refl }

  load-err :
      (cfg : Config) (blocks : List Block) (pending : List Transaction) (e : Stop)
      → Validate.validate c blocks ≡ err e
      → load c cfg blocks pending ≡ err (invalid e)
  unfolding load
  load-err cfg blocks pending e v = ground arith

  restored-IsQueued :
      (cfg : Config) (blocks : List Block) (pending : List Transaction)
      → IsValidChain c blocks
      → let d = restored cfg blocks pending in IsQueued c d.pool d.state
  unfolding restored new_mempool
  restored-IsQueued cfg blocks pending v =
      restore_pending-IsQueued pending (chain_state blocks new_state) (new_mempool [])
        (state-IsSound c (restored cfg blocks pending) (restored-IsConsistent cfg blocks pending v))
        tt

  restored-blocks :
      (cfg : Config) (blocks : List Block) (pending : List Transaction)
      → (restored cfg blocks pending).blocks ≡ blocks
  unfolding restored
  restored-blocks cfg blocks pending = refl

  restored_same :
      (ch : Chain)
      → IsConsistent c ch
      → IsQueued c ch.pool ch.state
      → restored ch.cfg ch.blocks ch.pool.pending ≡ ch
  unfolding restored new_mempool
  restored_same ch inv queued = cc (
    sym inv.derived,
    restore_pending-all ch.pool.pending [] (chain_state ch.blocks new_state)
        (subst IsSound inv.derived (state-IsSound c ch inv))
        (subst (Accepted c ch.pool.pending) inv.derived queued),
  )

  -- A chain that Load returns has the blocks that were read, validates, has the balances of its
  -- blocks, and a pool that is accepted on them, whatever was in the file.
  pub load_sound :
      (cfg : Config) (blocks : List Block) (pending : List Transaction) (ch : Chain)
      → load c cfg blocks pending ≡ ok ch
      → IsConsistent c ch × IsQueued c ch.pool ch.state × (ch.blocks ≡ blocks)
  load_sound cfg blocks pending ch h = elim (Result-cases (Validate.validate c blocks)) [
    | inr (e, v) ↦ cc (load-err cfg blocks pending e v, h)
    | inl (u, v) ↦
        let valid = (validate_exact c blocks).0 v in
        let same : restored cfg blocks pending ≡ ch = cc (load-ok cfg blocks pending valid, h) in
        let inv = restored-IsConsistent cfg blocks pending valid in
        subst (λ d. IsConsistent c d × IsQueued c d.pool d.state × (d.blocks ≡ blocks)) same
          (inv, restored-IsQueued cfg blocks pending valid, restored-blocks cfg blocks pending)
  ]

  -- Load on the blocks of a consistent chain finds the same balances, whatever is pending.
  pub load_keeps :
      (cfg : Config) (pending : List Transaction) (ch : Chain)
      → IsConsistent c ch
      → (ch' : Chain) × (load c cfg ch.blocks pending ≡ ok ch')
        × (ch'.blocks ≡ ch.blocks)
        × (ch'.state ≡ ch.state)
  unfolding restored
  load_keeps cfg pending ch inv = (
    restored cfg ch.blocks pending,
    load-ok cfg ch.blocks pending inv.valid,
    refl,
    sym inv.derived,
  )

  -- `Load` on the blocks, the pool and the settings of a consistent chain, whose pool is accepted
  -- on its balances, returns the chain itself.
  pub load_restores :
      (ch : Chain)
      → IsConsistent c ch
      → IsQueued c ch.pool ch.state
      → load c ch.cfg ch.blocks ch.pool.pending ≡ ok ch
  load_restores ch inv queued =
      load-ok ch.cfg ch.blocks ch.pool.pending inv.valid
      ∙ ap (λ d. ok d) (restored_same ch inv queued)
