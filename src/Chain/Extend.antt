-- ===== src/Chain/Extend.antt =====
-- A valid chain (internal/chain/validate.go) with blocks added at its end.
use mathlib.Core.Path.{subst}
use toy_blockchain.Prelude.{
  ◌≤◌, ◌%◌, ◌≡◌, refl, ap, sym, ◌∙◌, Option, none, some, List, [], ◌∷◌, ◌++◌, ok, last, length,
}
use toy_blockchain.Crypto.{Crypto}
use toy_blockchain.Ledger.Transaction.{Transaction}
use toy_blockchain.Ledger.State.{State, new_state, can_apply}
use toy_blockchain.Ledger.Balances.{IsSound}
use toy_blockchain.Ledger.Replay.{Accepted, run}
use toy_blockchain.Ledger.Pool.{Accepted-append, run-IsSound}
use toy_blockchain.Block.Merkle.{merkle_root}
use toy_blockchain.Block.Header.{Block, hash_preimage, compute_hash}
use toy_blockchain.Block.Tree.{merkle_root_duplicate}
use toy_blockchain.Chain.Mine.{tip_of}
use toy_blockchain.Chain.Validate.{validate}
use toy_blockchain.Chain.Valid.{Linked, IsSealed, ValidFrom, IsValidChain, validate_exact}

-- The block before what comes after `bs`.
abbrev pub prev_after : Option Block → List Block → Option Block
prev_after p [] = p
prev_after p (b ∷ bs) = prev_after (some b) bs

-- The state that the transactions of the blocks lead to.
abbrev pub chain_state : List Block → State → State
chain_state [] s = s
chain_state (b ∷ bs) s = chain_state bs (run b.transactions s)

pub prev_after-tip :
    (p : Option Block) (bs : List Block) (t : Block) → tip_of bs ≡ some t → prev_after p bs ≡ some t
unfolding tip_of
prev_after-tip p [] t e = cc
prev_after-tip p (b ∷ []) t e = e
prev_after-tip p (b ∷ d ∷ bs) t e = prev_after-tip (some b) (d ∷ bs) t e

pub chain_state-append :
    (bs ds : List Block) (s : State) → chain_state (bs ++ ds) s ≡ chain_state ds (chain_state bs s)
chain_state-append [] ds s = refl
chain_state-append (b ∷ bs) ds s = chain_state-append bs ds (run b.transactions s)

module _ (c : Crypto) where
  pub ValidFrom-append :
      (p : Option Block) (bs ds : List Block) (s : State)
      → ValidFrom c p bs s
      → ValidFrom c (prev_after p bs) ds (chain_state bs s)
      → ValidFrom c p (bs ++ ds) s
  ValidFrom-append p [] ds s v w = w
  ValidFrom-append p (b ∷ bs) ds s (l, e, a, v) w =
      (l, e, a, ValidFrom-append (some b) bs ds (run b.transactions s) v w)

  pub ValidFrom-split :
      (p : Option Block) (bs ds : List Block) (s : State)
      → ValidFrom c p (bs ++ ds) s
      → ValidFrom c p bs s × ValidFrom c (prev_after p bs) ds (chain_state bs s)
  ValidFrom-split p [] ds s v = (tt, v)
  ValidFrom-split p (b ∷ bs) ds s (l, e, a, v) =
      let (v1, v2) = ValidFrom-split (some b) bs ds (run b.transactions s) v in ((l, e, a, v1), v2)

  pub chain_state-IsSound :
      (p : Option Block) (bs : List Block) (s : State)
      → IsSound s
      → ValidFrom c p bs s
      → IsSound (chain_state bs s)
  chain_state-IsSound p [] s h v = h
  chain_state-IsSound p (b ∷ bs) s h (l, e, a, v) =
      chain_state-IsSound (some b) bs (run b.transactions s) (run-IsSound c b.transactions s h a) v

  -- One more block on a valid chain.
  pub IsValidChain-append :
      (bs : List Block) (b : Block)
      → IsValidChain c bs
      → Linked (prev_after none bs) b
      → IsSealed c b
      → Accepted c b.transactions (chain_state bs new_state)
      → IsValidChain c (bs ++ b ∷ [])
  IsValidChain-append [] b v l e a = absurd v
  IsValidChain-append (g ∷ bs) b (h, k, v) l e a =
      (h, k, ValidFrom-append none (g ∷ bs) (b ∷ []) new_state v (l, e, a, tt))

  pub IsValidChain-split :
      (bs : List Block) (b d : Block)
      → IsValidChain c ((d ∷ bs) ++ b ∷ [])
      → IsValidChain c (d ∷ bs)
        × Linked (prev_after none (d ∷ bs)) b
        × IsSealed c b
        × Accepted c b.transactions (chain_state (d ∷ bs) new_state)
  IsValidChain-split bs b d (h, k, v) =
      let (v1, (l, e, a, _)) = ValidFrom-split none (d ∷ bs) (b ∷ []) new_state v in
      ((h, k, v1), l, e, a)

  -- A block whose transactions are of odd number, at least three, with its last transaction once
  -- more at their end.
  abbrev pub repeat_last : Block → Transaction → List Transaction → Block
  repeat_last b tx txs = record b { transactions = (tx ∷ txs) ++ last tx txs ∷ [] }

  Linked-transactions :
      (p : Option Block) (b : Block) (txs : List Transaction)
      → Linked p b
      → Linked p (record b { transactions = txs })
  Linked-transactions none b txs l = tt
  Linked-transactions (some q) b txs l = record {
    height = l.height;
    timestamp = l.timestamp;
    prev_hash = l.prev_hash;
  }

  repeat_last-IsSealed :
      (b : Block) (tx : Transaction) (txs : List Transaction)
      → IsSealed c b
      → b.transactions ≡ tx ∷ txs
      → length (tx ∷ txs) % 2 ≡ 1
      → 3 ≤ length (tx ∷ txs)
      → IsSealed c (repeat_last b tx txs)
  unfolding compute_hash hash_preimage
  repeat_last-IsSealed b tx txs seal e odd three = record {
    merkle = seal.merkle ∙ ap (merkle_root c) e ∙ sym (merkle_root_duplicate c tx txs odd three);
    hash = seal.hash;
    work = seal.work;
  }

  -- If the last block of a valid chain holds an odd number of transactions, three or more, then
  -- the chain with the last of them written into the block once more is valid too, whenever the
  -- repeated transaction is accepted on the balances at the end.
  pub validate-repeat_last :
      (g : Block) (bs : List Block) (b : Block) (tx : Transaction) (txs : List Transaction)
      → validate c ((g ∷ bs) ++ b ∷ []) ≡ ok tt
      → b.transactions ≡ tx ∷ txs
      → length (tx ∷ txs) % 2 ≡ 1
      → 3 ≤ length (tx ∷ txs)
      → can_apply c (chain_state ((g ∷ bs) ++ b ∷ []) new_state) (last tx txs) ≡ ok tt
      → validate c ((g ∷ bs) ++ repeat_last b tx txs ∷ []) ≡ ok tt
  validate-repeat_last g bs b tx txs valid e odd three again =
      let (v, linked, seal, accepted) =
        IsValidChain-split bs b g ((validate_exact c ((g ∷ bs) ++ b ∷ [])).0 valid) in
      (validate_exact c ((g ∷ bs) ++ repeat_last b tx txs ∷ [])).1 (
        IsValidChain-append (g ∷ bs) (repeat_last b tx txs) v
          (Linked-transactions (prev_after none (g ∷ bs)) b ((tx ∷ txs) ++ last tx txs ∷ []) linked)
          (repeat_last-IsSealed b tx txs seal e odd three)
          (Accepted-append c (tx ∷ txs) (last tx txs ∷ []) (chain_state (g ∷ bs) new_state)
            (subst (λ l. Accepted c l (chain_state (g ∷ bs) new_state)) e accepted)
            (
              subst (λ t. can_apply c t (last tx txs) ≡ ok tt)
                  (chain_state-append (g ∷ bs) (b ∷ []) new_state
                    ∙ ap (λ l. run l (chain_state (g ∷ bs) new_state)) e)
                  again,
              tt,
            )))
