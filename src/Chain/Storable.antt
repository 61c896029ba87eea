-- ===== src/Chain/Storable.antt =====
-- What a chain file holds: a consistent chain, and a queue of transactions that are each valid by
-- themselves. Every call keeps it, so every string that reaches the file has passed a check.
use mathlib.Core.Path.{subst}
use toy_blockchain.Prelude.{
  ℕ, zero, suc, ◌≡◌, sym, ap, ◌∙◌, ◌++◌, append-nil, append_assoc, List, [], ◌∷◌, All, drop, length,
  ℤ, Result, ok, inl, inr, arith, Result-cases,
}
use toy_blockchain.Crypto.{Crypto}
use toy_blockchain.Config.{Config}
use toy_blockchain.Ledger.Transaction.{Transaction, new_coinbase}
use toy_blockchain.Ledger.Signature
use toy_blockchain.Ledger.State.{State, can_apply}
use toy_blockchain.Ledger.Replay.{Accepted}
use toy_blockchain.Ledger.Mempool.{Mempool, add, remove, new_mempool, at_most}
use toy_blockchain.Ledger.Pool.{add_exact}
use toy_blockchain.Block.Header.{Block}
use toy_blockchain.Miner.Proofs.{IsMiner}
use toy_blockchain.Miner.Search.{MinerError, MinerResult}
use toy_blockchain.Chain.Mine.{Chain, new_chain, load, add_transaction, faucet, mine}
use toy_blockchain.Chain.Mining.{IsConsistent, state-IsSound, mine_all_or_nothing}
use toy_blockchain.Chain.Reach.{
  Moved, Step, queue, mint, extend, add_transaction-IsConsistent, mine_call-IsConsistent,
}
use toy_blockchain.Chain.Reload.{new_chain-IsConsistent, load_sound}

module _ (c : Crypto) where
  abbrev pub IsValid : Transaction → Type 0
  IsValid tx = Signature.validate c tx ≡ ok tt

  pub record IsStorable (ch : Chain) : Type 0 where
    pub consistent : IsConsistent c ch
    pub valid : All IsValid ch.pool.pending

  can_apply-IsValid :
      (s : State) (tx : Transaction) → can_apply c s tx ≡ ok tt → Signature.validate c tx ≡ ok tt
  unfolding can_apply
  can_apply-IsValid s tx h = elim (Result-cases (Signature.validate c tx)) [
    | inl (u, v) ↦ v
    | inr (e, v) ↦ ground (arith, v, h)
  ]

  Accepted-IsValid : (txs : List Transaction) (s : State) → Accepted c txs s → All IsValid txs
  Accepted-IsValid [] s h = tt
  Accepted-IsValid (tx ∷ txs) s h = (can_apply-IsValid s tx h.0, Accepted-IsValid txs _ h.1)

  All-drop : (n : ℕ) (txs : List Transaction) → All IsValid txs → All IsValid (drop n txs)
  All-drop zero txs h = h
  All-drop (suc n) [] h = tt
  All-drop (suc n) (tx ∷ txs) h = All-drop n txs h.1

  add_transaction-IsStorable :
      (tx : Transaction) (ch : Chain) → IsStorable ch → IsStorable (add_transaction c tx ch).1
  unfolding add_transaction
  add_transaction-IsStorable tx ch inv = record {
    consistent = add_transaction-IsConsistent c tx ch inv.consistent;
    valid = kept;
  }
    where
      kept : All IsValid (add c tx ch.state ch.pool).1.pending
      kept = elim (add_exact c tx ch.state ch.pool (state-IsSound c ch inv.consistent)) [
        | inl (accepted, e) ↦
            subst (λ m. All IsValid m.pending) (sym (ap (λ r. r.1) e))
              (Accepted-IsValid (ch.pool.pending ++ tx ∷ []) ch.state accepted)
        | inr (e, refused, not_accepted) ↦
            subst (λ m. All IsValid m.pending) (sym (ap (λ r. r.1) refused)) inv.valid
      ]

  remove-IsValid : (n : ℕ) (m : Mempool) → All IsValid m.pending → All IsValid (remove n m).pending
  unfolding remove
  remove-IsValid n m h = All-drop (at_most n (length m.pending)) m.pending h

  mine-IsValid :
      (search : Block → Result MinerError MinerResult) (nano unix : ℤ) (ch : Chain)
      → IsMiner c search
      → IsStorable ch
      → All IsValid (mine c search nano unix ch).1.pool.pending
  mine-IsValid search nano unix ch law inv =
      elim (mine_all_or_nothing c search law nano unix ch inv.consistent) [
        | inl (r, ch', e, m) ↦
            subst (λ d. All IsValid d.pool.pending) (sym (ap (λ p. p.1) e ∙ m.left))
              (remove-IsValid m.from_pool ch.pool inv.valid)
        | inr (e, q) ↦ subst (λ d. All IsValid d.pool.pending) (sym (ap (λ p. p.1) q)) inv.valid
      ]

  pub Step-IsStorable : (ch ch' : Chain) → IsStorable ch → Step c ch ch' → IsStorable ch'
  unfolding faucet
  Step-IsStorable ch _ inv (queue tx) = add_transaction-IsStorable tx ch inv
  Step-IsStorable ch _ inv (mint to amount nano) =
      add_transaction-IsStorable (new_coinbase to amount nano) ch inv
  Step-IsStorable ch _ inv (extend search nano unix law on_time) = record {
    consistent = mine_call-IsConsistent c search nano unix ch law on_time inv.consistent;
    valid = mine-IsValid search nano unix ch law inv;
  }

  pub new_chain-IsStorable : (cfg : Config) → IsStorable (new_chain c cfg)
  unfolding new_chain new_mempool
  new_chain-IsStorable cfg = record { consistent = new_chain-IsConsistent c cfg; valid = tt }

  pub load-IsStorable :
      (cfg : Config) (blocks : List Block) (pending : List Transaction) (ch : Chain)
      → load c cfg blocks pending ≡ ok ch
      → IsStorable ch
  load-IsStorable cfg blocks pending ch h =
      let (inv, queued, same) = load_sound c cfg blocks pending ch h in
      record { consistent = inv; valid = Accepted-IsValid ch.pool.pending ch.state queued }

  -- Blocks are only ever added at the end.
  abbrev pub Extends : List Block → List Block → Type 0
  Extends blocks blocks' = (more : List Block) × (blocks' ≡ blocks ++ more)

  pub Step-Extends :
      (ch ch' : Chain) → IsConsistent c ch → Step c ch ch' → Extends ch.blocks ch'.blocks
  unfolding faucet add_transaction
  Step-Extends ch _ inv (queue tx) = ([], sym (append-nil ch.blocks))
  Step-Extends ch _ inv (mint to amount nano) = ([], sym (append-nil ch.blocks))
  Step-Extends ch _ inv (extend search nano unix law on_time) =
      elim (mine_all_or_nothing c search law nano unix ch inv) [
        | inl (r, ch', e, m) ↦ (r.block ∷ [], ap (λ p. p.1.blocks) e ∙ ap (λ d. d.blocks) m.left)
        | inr (e, q) ↦ ([], ap (λ p. p.1.blocks) q ∙ sym (append-nil ch.blocks))
      ]

  pub Moved-IsStorable :
      (ch ch' : Chain)
      → IsStorable ch
      → Moved c ch ch'
      → IsStorable ch' × Extends ch.blocks ch'.blocks
  Moved-IsStorable ch ch' inv (inl same) =
      (subst IsStorable (sym same) inv, ([], ap (λ d. d.blocks) same ∙ sym (append-nil ch.blocks)))
  Moved-IsStorable ch ch' inv (inr s) =
      (Step-IsStorable ch ch' inv s, Step-Extends ch ch' inv.consistent s)

  pub Extends-trans : (xs ys zs : List Block) → Extends xs ys → Extends ys zs → Extends xs zs
  Extends-trans xs ys zs (more, longer) (more', longer') =
      (more ++ more', longer' ∙ ap (λ bs. bs ++ more') longer ∙ append_assoc xs more more')
