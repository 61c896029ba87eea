-- ===== src/Chain/Progress.antt =====
-- Mine of internal/chain/chain.go goes on: what can keep it from appending a block, and what it
-- leaves in the pool.
use mathlib.Core.Path.{subst}
use toy_blockchain.Prelude.{
  ℕ, ◌+◌, ◌-◌, ◌≤◌, ◌<◌, ◌≡◌, ◌⊎◌, refl, sym, ◌∙◌, List, [], ◌∷◌, ◌++◌, length, take, Text, text_eq,
  some, true, Bool-cases, inl, inr, arith, ℤ, pos, pos_part, ltb_ℤ, max_int64, Result, ok, err,
  Result-cases, if◌then◌else◌,
}
use toy_blockchain.Crypto.{Crypto}
use toy_blockchain.Config.Bounds.{IsUsable}
use toy_blockchain.Ledger.Transaction.{
  Transaction, new_coinbase, is_coinbase, valid_address, recipient,
}
use toy_blockchain.Ledger.Signature.{validate}
use toy_blockchain.Ledger.Mempool.{peek, at_most, remove}
use toy_blockchain.Ledger.Balances.{IsSound}
use toy_blockchain.Ledger.Moves.{coins}
use toy_blockchain.Ledger.Replay.{Accepted, view, minted_all, run, clone_id, apply_all-ok}
use toy_blockchain.Ledger.Pool.{
  IsQueued, Accepted-append, Accepted-split, peek-remove, run-append, run-IsSound,
}
use toy_blockchain.Ledger.Monotone.{Accepted-above, mint_accepted}
use toy_blockchain.Block.Header.{Block}
use toy_blockchain.Miner.Search.{MinerError, MinerResult}
use toy_blockchain.Miner.Proofs.{IsMiner}
use toy_blockchain.Chain.Mine.{Chain, search_failed, build_body, candidate, mine}
use toy_blockchain.Chain.Mining.{
  IsConsistent, state-IsSound, tip_some, tip_is, mine_appends, append_block-ok, mined-transactions,
  grown,
}
use toy_blockchain.Chain.Body.{one_less}

-- The reward as `buildBody` packs it.
abbrev pub fee : ℤ → Chain → List Transaction
fee nano ch =
    if ltb_ℤ (pos 0) ch.cfg.mining_reward
    then new_coinbase ch.cfg.miner_address ch.cfg.mining_reward nano ∷ []
    else []

-- `buildBody` packs the reward and a first part of the queue, and the pool keeps the rest.
pub body_parts :
    (nano : ℤ) (ch : Chain) (m : ℕ)
    → ch.cfg.max_tx_per_block ≡ pos m
    → m ≤ max_int64
    → 0 < m
    → (q : List Transaction) × (build_body nano ch ≡ some (fee nano ch ++ q, length q))
      × (q ++ (remove (length q) ch.pool).pending ≡ ch.pool.pending)
unfolding build_body peek
body_parts nano ch m e small room =
    let queued : ℕ → List Transaction =
      λ n. take (at_most n (length ch.pool.pending)) ch.pool.pending in
    elim (Bool-cases (ltb_ℤ (pos 0) ch.cfg.mining_reward)) [
      | inl r ↦ (
        queued (m - 1),
        ground (arith, e, r, one_less m room small),
        (peek-remove (m - 1) ch.pool (queued (m - 1)) refl).0,
      )
      | inr r ↦ (queued m, ground (arith, e, r), (peek-remove m ch.pool (queued m) refl).0)
    ]

fee-IsValid :
    (c : Crypto) (nano : ℤ) (ch : Chain)
    → valid_address recipient ch.cfg.miner_address ≡ ok tt
    → ltb_ℤ (pos 0) ch.cfg.mining_reward ≡ true
    → validate c (new_coinbase ch.cfg.miner_address ch.cfg.mining_reward nano) ≡ ok tt
unfolding validate new_coinbase is_coinbase text_eq
fee-IsValid c nano ch address rewarded = ground (arith, address)

module _ (c : Crypto) (nano : ℤ) (ch : Chain) (sound : IsSound ch.state)
    (address : valid_address recipient ch.cfg.miner_address ≡ ok tt) where
  -- The reward is accepted where the coins leave room for it, and leaves no account with less.
  fee-Accepted :
      coins ch.state + pos_part ch.cfg.mining_reward ≤ max_int64
      → Accepted c (fee nano ch) ch.state
        × ((j : Text) → view ch.state j ≤ view (run (fee nano ch) ch.state) j)
        × (coins (run (fee nano ch) ch.state) ≤ coins ch.state + pos_part ch.cfg.mining_reward)
  unfolding new_coinbase is_coinbase text_eq
  fee-Accepted room = elim (Bool-cases (ltb_ℤ (pos 0) ch.cfg.mining_reward)) [
    | inr r ↦ rw r (tt, (λ j. omega arith), omega arith)
    | inl r ↦
        let tx = new_coinbase ch.cfg.miner_address ch.cfg.mining_reward nano in
        let (accepted, above, more) =
          mint_accepted c tx ch.state sound (fee-IsValid c nano ch address r) refl room in
        rw r ((accepted, tt), above, omega (arith, more))
  ]

-- Everything that Mine packs is accepted, and what it leaves in the pool is accepted after it.
packed :
    (c : Crypto) (nano : ℤ) (ch : Chain) (q : List Transaction)
    → IsSound ch.state
    → IsQueued c ch.pool ch.state
    → valid_address recipient ch.cfg.miner_address ≡ ok tt
    → coins ch.state + pos_part ch.cfg.mining_reward + minted_all ch.pool.pending ≤ max_int64
    → q ++ (remove (length q) ch.pool).pending ≡ ch.pool.pending
    → Accepted c (fee nano ch ++ q) ch.state
      × Accepted c (remove (length q) ch.pool).pending (run (fee nano ch ++ q) ch.state)
packed c nano ch q sound queued address room split =
    let rest = (remove (length q) ch.pool).pending in
    let s' = run (fee nano ch) ch.state in
    let (paid, above, more) = fee-Accepted c nano ch sound address (omega arith) in
    let all : Accepted c (q ++ rest) s' =
      subst (λ l. Accepted c l s') (sym split)
        (Accepted-above c ch.pool.pending ch.state s' sound
          (run-IsSound c (fee nano ch) ch.state sound paid) above (omega arith) queued) in
    let (first, later) = Accepted-split c q rest s' all in
    (
      Accepted-append c (fee nano ch) q ch.state paid first,
      subst (λ s. Accepted c rest s) (sym (run-append (fee nano ch) q ch.state)) later,
    )

-- On a consistent chain whose pool is accepted on its balances, under settings such as Load returns
-- and with a miner address that keeps the address rules, and where the coins of the balances, the
-- reward and what the pool mints are not more than an int64 holds: `Mine` fails only if the miner
-- does, and then changes nothing. Otherwise it appends the block that was found, and the pool that it
-- leaves is accepted on the new balances.
pub mine_progress :
    (c : Crypto) (search : Block → Result MinerError MinerResult) (law : IsMiner c search)
    (nano unix : ℤ) (ch : Chain)
    → IsConsistent c ch
    → IsQueued c ch.pool ch.state
    → IsUsable ch.cfg
    → valid_address recipient ch.cfg.miner_address ≡ ok tt
    → coins ch.state + pos_part ch.cfg.mining_reward + minted_all ch.pool.pending ≤ max_int64
    → ((r : MinerResult) × (ch' : Chain) × (mine c search nano unix ch ≡ (ok r, ch'))
        × (ch'.blocks ≡ ch.blocks ++ r.block ∷ [])
        × IsQueued c ch'.pool ch'.state)
      ⊎ ((e : MinerError) × (b : Block) × (search b ≡ err e)
          × (mine c search nano unix ch ≡ (err (search_failed e), ch)))
unfolding mine
mine_progress c search law nano unix ch inv queued usable address room =
    let (m, e, positive, small) = usable.max_tx in
    let sound = state-IsSound c ch inv in
    let (q, built, split) = body_parts nano ch m e small positive in
    let body = fee nano ch ++ q in
    let (accepted, left) = packed c nano ch q sound queued address room split in
    let (t, end) = tip_some c ch.blocks inv.valid in
    let at_tip = tip_is c search law nano unix ch inv t end in
    elim (Result-cases (search (candidate c t body unix ch))) [
      | inr (e, s) ↦ inr (
        e,
        candidate c t body unix ch,
        s,
        ground (
          arith,
          built,
          clone_id ch.state sound,
          apply_all-ok c body ch.state sound accepted,
          at_tip,
          s,
        ),
      )
      | inl (r, s) ↦
          let same = mined-transactions c search law nano unix ch inv body t r s in
          inl (
            r,
            grown c r (length q) ch,
            mine_appends c search law nano unix ch inv body (length q) t r built accepted at_tip s
                ∙ append_block-ok c r (length q) ch sound
                    (subst (λ l. Accepted c l ch.state) (sym same) accepted),
            refl,
            subst (λ l. Accepted c (remove (length q) ch.pool).pending (run l ch.state)) (sym same)
                left,
          )
    ]
