-- ===== src/Chain/Growth.antt =====
-- The chain that Mine of internal/chain/chain.go leaves, under Validate: it stays valid as long as
-- the clock does not run behind the last block.
use mathlib.Core.Path.{subst}
use toy_blockchain.Prelude.{
  ℕ, ◌+◌, ◌%◌, ◌^◌, ◌≡◌, refl, ap, sym, ◌∙◌, ◌↔◌, none, some, List, [], ◌∷◌, ◌++◌, ok, ltb_ℤ, true,
  false, ℤ, Result, inl, inr,
}
use toy_blockchain.Crypto.{Crypto}
use toy_blockchain.Ledger.Transaction.{Transaction}
use toy_blockchain.Ledger.State.{new_state}
use toy_blockchain.Ledger.Replay.{Accepted, run}
use toy_blockchain.Block.Header.{Block, new_block, compute_hash, meets_difficulty, hash_preimage}
use toy_blockchain.Miner.Search.{MinerError, MinerResult, attempt}
use toy_blockchain.Miner.Proofs.{IsMiner}
use toy_blockchain.Chain.Validate.{validate}
use toy_blockchain.Chain.Mine.{Chain, tip, candidate, mine}
use toy_blockchain.Chain.Valid.{Follows, Linked, IsSealed, IsValidChain, validate_exact}
use toy_blockchain.Chain.Extend.{
  prev_after, prev_after-tip, chain_state, chain_state-append, IsValidChain-append,
  IsValidChain-split,
}
use toy_blockchain.Chain.Mining.{IsConsistent, Mined, mined-transactions, mine_all_or_nothing}

module _ (c : Crypto) where
  attempt-IsSealed :
      (t : Block) (body : List Transaction) (unix : ℤ) (ch : Chain) (nonce : ℕ)
      → meets_difficulty
          (attempt c (candidate c t body unix ch) nonce).hash
          (attempt c (candidate c t body unix ch) nonce).difficulty
        ≡ some true
      → IsSealed c (attempt c (candidate c t body unix ch) nonce)
  unfolding candidate new_block compute_hash hash_preimage
  attempt-IsSealed t body unix ch nonce work = record { merkle = refl; hash = refl; work = work }

  attempt_header :
      (t : Block) (body : List Transaction) (unix : ℤ) (ch : Chain) (nonce : ℕ)
      → let b = attempt c (candidate c t body unix ch) nonce in
        (b.height ≡ (t.height + 1) % 2 ^ 64) × (b.timestamp ≡ unix) × (b.prev_hash ≡ t.hash)
  unfolding candidate new_block
  attempt_header t body unix ch nonce = (refl, refl, refl)

  module _ (search : Block → Result MinerError MinerResult) (law : IsMiner c search) (nano unix : ℤ)
      (ch : Chain) (inv : IsConsistent c ch) (r : MinerResult) (ch' : Chain)
      (mined : Mined c search law nano unix ch inv r ch') where
    abbrev last_block : Block
    last_block = mined.last_block

    IsSealed-header :
        IsSealed c r.block
        × (r.block.height ≡ (last_block.height + 1) % 2 ^ 64)
        × (r.block.timestamp ≡ unix)
        × (r.block.prev_hash ≡ last_block.hash)
    IsSealed-header =
        let (nonce, same, work) =
          law.found (candidate c last_block mined.body unix ch) r mined.searched in
        let (h, t, p) = attempt_header last_block mined.body unix ch nonce in
        (
          subst (IsSealed c) (sym same) (
              attempt-IsSealed last_block mined.body unix ch nonce
                (subst (λ b. meets_difficulty b.hash b.difficulty ≡ some true) same work)),
          ap (λ b. b.height) same ∙ h,
          ap (λ b. b.timestamp) same ∙ t,
          ap (λ b. b.prev_hash) same ∙ p,
        )

    before : prev_after none ch.blocks ≡ some last_block
    unfolding tip
    before = prev_after-tip none ch.blocks last_block mined.at_tip

    Accepted-block : Accepted c r.block.transactions (chain_state ch.blocks new_state)
    Accepted-block =
        subst (λ l. Accepted c l (chain_state ch.blocks new_state))
          (sym (
            mined-transactions c search law nano unix ch inv mined.body last_block r
              mined.searched))
          (subst (Accepted c mined.body) inv.derived mined.accepted)

    blocks_left : ch'.blocks ≡ ch.blocks ++ r.block ∷ []
    blocks_left = ap (λ d. d.blocks) mined.left

    follows : ltb_ℤ unix last_block.timestamp ≡ false → Follows last_block r.block
    follows on_time =
        let (seal, h, t, p) = IsSealed-header in
        record { height = h; timestamp = rw t on_time; prev_hash = p }

    -- After a successful `Mine` on a consistent chain, with a miner that meets `IsMiner`, the
    -- chain is consistent again, provided that the clock has not fallen behind the block that it
    -- was mined on.
    pub mine-IsConsistent : ltb_ℤ unix last_block.timestamp ≡ false → IsConsistent c ch'
    mine-IsConsistent on_time = record {
      valid = subst (IsValidChain c) (sym blocks_left) (
          IsValidChain-append c ch.blocks r.block inv.valid
            (subst (λ p. Linked p r.block) (sym before) (follows on_time)) IsSealed-header.0
            Accepted-block);
      derived =
          ap (λ d. d.state) mined.left
          ∙ ap (λ s. run r.block.transactions s) inv.derived
          ∙ sym (chain_state-append ch.blocks (r.block ∷ []) new_state)
          ∙ ap (λ bs. chain_state bs new_state) (sym blocks_left);
    }

    late_block :
        (bs : List Block)
        → ch.blocks ≡ bs
        → IsValidChain c (bs ++ r.block ∷ [])
        → ltb_ℤ unix last_block.timestamp ≡ false
    late_block [] e v = absurd (subst (IsValidChain c) e inv.valid)
    late_block (g ∷ bs) e v =
        let linked = (IsValidChain-split c bs r.block g v).1 in
        let f =
          subst (λ p. Linked p r.block) (ap (λ l. prev_after none l) (sym e) ∙ before) linked in
        subst (λ t. ltb_ℤ t last_block.timestamp ≡ false) IsSealed-header.2 f.timestamp

    mined_validates : (validate c ch'.blocks ≡ ok tt) ↔ (ltb_ℤ unix last_block.timestamp ≡ false)
    mined_validates = (
      (λ v.
          late_block ch.blocks refl
            (subst (IsValidChain c) blocks_left ((validate_exact c ch'.blocks).0 v))),
      (λ on_time. (validate_exact c ch'.blocks).1 (mine-IsConsistent on_time).valid),
    )

  -- After a successful `Mine` on a consistent chain, with a miner that meets `IsMiner`, the chain
  -- that it leaves has one block more, stamped with the reading of the clock in seconds, and
  -- validates exactly if that reading is not before the timestamp of the tip that it was mined on.
  pub mine_validates_exactly :
      (search : Block → Result MinerError MinerResult) (law : IsMiner c search) (nano unix : ℤ)
      (ch : Chain)
      → IsConsistent c ch
      → (r : MinerResult) (ch' : Chain) (last : Block) → mine c search nano unix ch ≡ (ok r, ch')
      → tip ch ≡ some last
      → (ch'.blocks ≡ ch.blocks ++ r.block ∷ [])
        × (r.block.timestamp ≡ unix)
        × ((validate c ch'.blocks ≡ ok tt) ↔ (ltb_ℤ unix last.timestamp ≡ false))
  mine_validates_exactly search law nano unix ch inv r ch' last mined at_tip =
      elim (mine_all_or_nothing c search law nano unix ch inv) [
        | inr (e, h) ↦ absurd (cc (mined, h))
        | inl (r', ch'', h, m) ↦
            let result : r' ≡ r = cc (mined, h) in
            let left : ch'' ≡ ch' = cc (mined, h) in
            let below : m.last_block ≡ last = cc (m.at_tip, at_tip) in
            let (_, _, stamped, _) = IsSealed-header search law nano unix ch inv r' ch'' m in
            let (to, from) = mined_validates search law nano unix ch inv r' ch'' m in
            (
              cc (blocks_left search law nano unix ch inv r' ch'' m, result, left),
              cc (stamped, result),
              (
                (λ v. cc (to (cc (v, left)), below)),
                (λ on_time. cc (from (cc (on_time, below)), left)),
              ),
            )
      ]
