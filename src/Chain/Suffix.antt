-- ===== src/Chain/Suffix.antt =====
-- Two ends of chains with one last hash agree block by block, by the rules of
-- internal/chain/validate.go.
use mathlib.Core.Path.{subst}
use toy_blockchain.Prelude.{
  ◌≡◌, refl, sym, ◌∙◌, ◌⊎◌, inl, inr, Option, some, List, [], ◌∷◌, ◌++◌, ⊤, Text, arith, ◌==◌,
  ==_iff, map, length, last, Free, Bool-cases, ∷-injective,
}
use toy_blockchain.Crypto.{Crypto, IsCrypto}
use toy_blockchain.Ledger.Transaction.{Transaction, canonical_bytes}
use toy_blockchain.Ledger.State.{State}
use toy_blockchain.Ledger.Balances.{can_apply-eq-ok}
use toy_blockchain.Ledger.Moves.{after}
use toy_blockchain.Ledger.Replay.{Accepted, run}
use toy_blockchain.Ledger.Authority.{signature-Free, canonical_bytes-injective}
use toy_blockchain.Block.Header.{Block, hash_preimage}
use toy_blockchain.Block.Binding.{CollidesIn, CollidesIn-append_left, CollidesIn-append_right}
use toy_blockchain.Block.Commitment.{merkle_inputs, merkle_root_binding}
use toy_blockchain.Block.Link.{
  SameHeader, HasDigests, compute_hash_binding, merkle_root-Free, compute_hash-Free,
}
use toy_blockchain.Chain.Valid.{IsSealed, ValidFrom}

-- Two blocks of two histories agree: in every field of the header, in the stored hash, and in the
-- transactions, if there are as many of them.
pub record Agree (a b : Block) : Type 0 where
  pub header : SameHeader a b
  pub hash : a.hash ≡ b.hash
  pub transactions : length a.transactions ≡ length b.transactions → a.transactions ≡ b.transactions

-- Two lists of blocks are of one length and agree block by block.
abbrev pub AgreeAll : List Block → List Block → Type 0
AgreeAll [] [] = ⊤
AgreeAll [] (b ∷ bs) = ⊥
AgreeAll (a ∷ as') [] = ⊥
AgreeAll (a ∷ as') (b ∷ bs) = Agree a b × AgreeAll as' bs

module _ (c : Crypto) where
  -- The strings that Validate hashes for a block, and for a chain.
  pub block_inputs : Block → List Text
  block_inputs b = hash_preimage b ∷ merkle_inputs c b.transactions

  abbrev pub chain_inputs : List Block → List Text
  chain_inputs [] = []
  chain_inputs (b ∷ bs) = block_inputs b ++ chain_inputs bs

  Accepted-same :
      (txs us : List Transaction) (s t : State)
      → Accepted c txs s
      → Accepted c us t
      → map canonical_bytes txs ≡ map canonical_bytes us
      → txs ≡ us
  Accepted-same [] [] s t h k e = refl
  Accepted-same [] (u ∷ us) s t h k e = cc
  Accepted-same (tx ∷ txs) [] s t h k e = cc
  Accepted-same (tx ∷ txs) (u ∷ us) s t h k e =
      let (head, tail) = ∷-injective e in
      let same =
        canonical_bytes-injective tx u (signature-Free c tx (can_apply-eq-ok c s tx h.0).0)
          (signature-Free c u (can_apply-eq-ok c t u k.0).0) head in
      cc (same, Accepted-same txs us (after s tx) (after t u) h.1 k.1 tail)

  module _ (laws : IsCrypto c) where
    sealed-HasDigests : (b : Block) → IsSealed c b → Free b'|' b.prev_hash → HasDigests b
    sealed-HasDigests b v free = record {
      prev_hash = free;
      merkle_root = rw v.merkle (merkle_root-Free c laws b.transactions);
    }

    pub sealed_hash-Free : (b : Block) → IsSealed c b → Free b'|' b.hash
    sealed_hash-Free b v = rw v.hash (compute_hash-Free c laws b)

    -- Two sealed blocks with one stored hash agree in the header, or collide.
    pub header_binding :
        (a b : Block)
        → IsSealed c a
        → IsSealed c b
        → Free b'|' a.prev_hash
        → Free b'|' b.prev_hash
        → a.hash ≡ b.hash
        → SameHeader a b ⊎ CollidesIn c (block_inputs a) (block_inputs b)
    unfolding block_inputs
    header_binding a b va vb fa fb e =
        elim (compute_hash_binding c laws a b (sealed-HasDigests a va fa)
          (sealed-HasDigests b vb fb) (sym va.hash ∙ e ∙ vb.hash)) [
            | inl same ↦ inl same
            | inr k ↦ inr (record {
              one = hash_preimage a;
              other = hash_preimage b;
              one_in = inl refl;
              other_in = inl refl;
              collide = k;
            })
          ]

    block_binding :
        (a b : Block) (s t : State)
        → IsSealed c a
        → IsSealed c b
        → Accepted c a.transactions s
        → Accepted c b.transactions t
        → SameHeader a b
        → a.hash ≡ b.hash
        → Agree a b ⊎ CollidesIn c (block_inputs a) (block_inputs b)
    unfolding block_inputs
    block_binding a b s t va vb ha hb same e =
        elim (Bool-cases (length a.transactions == length b.transactions)) [
          | inr differ ↦ inl (record {
            header = same;
            hash = e;
            transactions =
                λ n. cc ((==_iff (length a.transactions) (length b.transactions)).1 n, differ);
          })
          | inl equal ↦
              elim (merkle_root_binding c laws a.transactions b.transactions
                ((==_iff (length a.transactions) (length b.transactions)).0 equal)
                (sym va.merkle ∙ same.merkle_root ∙ vb.merkle)) [
                  | inl bytes ↦ inl (record {
                    header = same;
                    hash = e;
                    transactions = λ n. Accepted-same a.transactions b.transactions s t ha hb bytes;
                  })
                  | inr k ↦
                      inr (CollidesIn-append_right (hash_preimage a ∷ []) (hash_preimage b ∷ []) k)
                ]
        ]

    sealed_binding :
        (a b : Block) (s t : State)
        → IsSealed c a
        → IsSealed c b
        → Accepted c a.transactions s
        → Accepted c b.transactions t
        → Free b'|' a.prev_hash
        → Free b'|' b.prev_hash
        → a.hash ≡ b.hash
        → Agree a b ⊎ CollidesIn c (block_inputs a) (block_inputs b)
    sealed_binding a b s t va vb ha hb fa fb e = elim (header_binding a b va vb fa fb e) [
      | inl same ↦ block_binding a b s t va vb ha hb same e
      | inr k ↦ inr k
    ]

    -- From the last block backwards: equal stored hashes at the end, on suffixes of one length.
    pub suffix_binding :
        (p q : Option Block) (a b : Block) (as' bs : List Block) (s t : State)
        → length as' ≡ length bs
        → Free b'|' a.prev_hash
        → Free b'|' b.prev_hash
        → ValidFrom c p (a ∷ as') s
        → ValidFrom c q (b ∷ bs) t
        → (last a as').hash ≡ (last b bs).hash
        → AgreeAll (a ∷ as') (b ∷ bs)
          ⊎ CollidesIn c (chain_inputs (a ∷ as')) (chain_inputs (b ∷ bs))
    suffix_binding p q a b [] [] s t n fa fb (la, va, ha, ra) (lb, vb, hb, rb) e =
        elim (sealed_binding a b s t va vb ha hb fa fb e) [
          | inl agree ↦ inl (agree, tt)
          | inr k ↦ inr (CollidesIn-append_left [] [] k)
        ]
    suffix_binding p q a b [] (b' ∷ bs) s t n fa fb va vb e = absurd (omega (arith, n))
    suffix_binding p q a b (a' ∷ as') [] s t n fa fb va vb e = absurd (omega (arith, n))
    suffix_binding p q a b (a' ∷ as') (b' ∷ bs) s t n fa fb (la, va, ha, ra) (lb, vb, hb, rb) e =
        let later =
          suffix_binding (some a) (some b) a' b' as' bs (run a.transactions s)
            (run b.transactions t) (omega (arith, n))
            (subst (Free b'|') (sym ra.0.prev_hash) (sealed_hash-Free a va))
            (subst (Free b'|') (sym rb.0.prev_hash) (sealed_hash-Free b vb)) ra rb e in
        elim later [
          | inr k ↦ inr (CollidesIn-append_right (block_inputs a) (block_inputs b) k)
          | inl agree ↦
              elim (sealed_binding a b s t va vb ha hb fa fb
                (sym ra.0.prev_hash ∙ agree.0.header.prev_hash ∙ rb.0.prev_hash)) [
                  | inl first ↦ inl (first, agree)
                  | inr k ↦
                      inr (
                        CollidesIn-append_left (chain_inputs (a' ∷ as')) (chain_inputs (b' ∷ bs)) k)
                ]
        ]
