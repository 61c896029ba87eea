-- ===== src/Chain/Mining.antt =====
-- Mine of internal/chain/chain.go: what a call leaves behind on every path, and when the chain that
-- it leaves validates.
use mathlib.Core.Path.{subst}
use toy_blockchain.Prelude.{
  ℕ, ◌≡◌, refl, ap, sym, ◌∙◌, ◌⊎◌, inl, inr, none, some, List, [], ◌∷◌, ◌++◌, arith, ok, err, ℤ,
  Result, Result-cases, Option-cases,
}
use toy_blockchain.Crypto.{Crypto}
use toy_blockchain.Ledger.Transaction.{Transaction, in_transaction}
use toy_blockchain.Ledger.State.{new_state}
use toy_blockchain.Ledger.Mempool.{remove}
use toy_blockchain.Ledger.Balances.{IsSound}
use toy_blockchain.Ledger.Replay.{Accepted, run, clone_id, apply_all-cases, apply_all-ok}
use toy_blockchain.Block.Header.{Block, new_block}
use toy_blockchain.Miner.Search.{MinerError, MinerResult}
use toy_blockchain.Miner.Proofs.{IsMiner}
use toy_blockchain.Chain.Mine.{
  Chain, MineError, rejected, search_failed, panicked, tip_of, tip, build_body, candidate,
  append_block, mine,
}
use toy_blockchain.Chain.Valid.{IsValidChain, new_state-IsSound}
use toy_blockchain.Chain.Extend.{chain_state, chain_state-IsSound}

-- The chain validates, and the balances are those of its blocks.
pub record IsConsistent (c : Crypto) (ch : Chain) : Type 0 where
  pub valid : IsValidChain c ch.blocks
  pub derived : ch.state ≡ chain_state ch.blocks new_state

module _ (c : Crypto) where
  pub state-IsSound : (ch : Chain) → IsConsistent c ch → IsSound ch.state
  state-IsSound ch h = rw h.derived (go ch.blocks h.valid)
    where
      go : (bs : List Block) → IsValidChain c bs → IsSound (chain_state bs new_state)
      go [] v = absurd v
      go (b ∷ bs) v = chain_state-IsSound c none (b ∷ bs) new_state new_state-IsSound v.2

  pub tip_some : (bs : List Block) → IsValidChain c bs → (t : Block) × (tip_of bs ≡ some t)
  unfolding tip_of
  tip_some [] v = absurd v
  tip_some (b ∷ bs) v = go b bs
    where
      go : (b : Block) (bs : List Block) → (t : Block) × (tip_of (b ∷ bs) ≡ some t)
      go b [] = (b, refl)
      go b (d ∷ bs) = go d bs

  -- The chain with one more block, as `Mine` leaves it.
  abbrev pub grown : MinerResult → ℕ → Chain → Chain
  grown r n ch = record ch {
    blocks = ch.blocks ++ r.block ∷ [];
    state = run r.block.transactions ch.state;
    pool = remove n ch.pool;
  }

  pub append_block-ok :
      (r : MinerResult) (n : ℕ) (ch : Chain)
      → IsSound ch.state
      → Accepted c r.block.transactions ch.state
      → append_block c r n ch ≡ (ok r, grown r n ch)
  unfolding append_block
  append_block-ok r n ch sound a =
      ground (arith, apply_all-ok c r.block.transactions ch.state sound a)

  module _ (search : Block → Result MinerError MinerResult) (law : IsMiner c search) (nano unix : ℤ)
      (ch : Chain) (inv : IsConsistent c ch) where
    pub tip_is : (t : Block) → tip_of ch.blocks ≡ some t → tip ch ≡ some t
    unfolding tip
    tip_is t e = e

    -- How a successful call came about.
    pub record Mined (r : MinerResult) (ch' : Chain) : Type 0 where
      pub body : List Transaction
      pub from_pool : ℕ
      pub last_block : Block
      pub built : build_body nano ch ≡ some (body, from_pool)
      pub at_tip : tip ch ≡ some last_block
      pub searched : search (candidate c last_block body unix ch) ≡ ok r
      pub accepted : Accepted c body ch.state
      pub left : ch' ≡ grown r from_pool ch

    -- Under the steps that came before, `Mine` is what its last step makes of it.
    pub mine_appends :
        (body : List Transaction) (n : ℕ) (t : Block) (r : MinerResult)
        → build_body nano ch ≡ some (body, n)
        → Accepted c body ch.state
        → tip ch ≡ some t
        → search (candidate c t body unix ch) ≡ ok r
        → mine c search nano unix ch ≡ append_block c r n ch
    unfolding mine
    mine_appends body n t r built accepted at_tip searched =
        let sound = state-IsSound ch inv in
        ground (
          arith,
          built,
          clone_id ch.state sound,
          apply_all-ok c body ch.state sound accepted,
          at_tip,
          searched,
        )

    -- The block that the miner returns holds the body that it was given.
    pub mined-transactions :
        (body : List Transaction) (t : Block) (r : MinerResult)
        → search (candidate c t body unix ch) ≡ ok r
        → r.block.transactions ≡ body
    unfolding candidate new_block
    mined-transactions body t r e =
        let (nonce, same, work) = law.found (candidate c t body unix ch) r e in
        ap (λ b. b.transactions) same

    -- On a consistent chain and with a miner that meets `IsMiner`, a call of `Mine` either
    -- succeeds, and then appends the block that the miner found, applies its transactions and
    -- takes what came off the pool out of it; or it returns an error and leaves the chain exactly
    -- as it was.
    pub mine_all_or_nothing :
        ((r : MinerResult) × (ch' : Chain) × (mine c search nano unix ch ≡ (ok r, ch'))
          × Mined r ch')
        ⊎ ((e : MineError) × (mine c search nano unix ch ≡ (err e, ch)))
    unfolding mine
    mine_all_or_nothing =
        let sound = state-IsSound ch inv in
        let same = clone_id ch.state sound in
        elim (Option-cases (build_body nano ch)) [
          | inl none_built ↦ inr (panicked, ground arith)
          | inr ((body, n), built) ↦ elim (apply_all-cases c body ch.state sound) [
            | inr (i, tx, e, stop, a) ↦
                inr (rejected (in_transaction i tx e), ground (arith, a, same))
            | inl (accepted, a) ↦
                let (t, at_tip) = tip_some ch.blocks inv.valid in
                elim (Result-cases (search (candidate c t body unix ch))) [
                  | inr (e, s) ↦ inr (search_failed e, ground (arith, a, same, tip_is t at_tip))
                  | inl (r, s) ↦
                      let body_kept = mined-transactions body t r s in
                      inl (
                        r,
                        grown r n ch,
                        mine_appends body n t r built accepted (tip_is t at_tip) s
                            ∙ append_block-ok r n ch sound
                                (subst (λ l. Accepted c l ch.state) (sym body_kept) accepted),
                        record {
                          body = body;
                          from_pool = n;
                          last_block = t;
                          built = built;
                          at_tip = tip_is t at_tip;
                          searched = s;
                          accepted = accepted;
                          left = refl;
                        },
                      )
                ]
          ]
        ]
