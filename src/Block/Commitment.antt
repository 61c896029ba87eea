-- ===== src/Block/Commitment.antt =====
-- What the Merkle root and the hash of a block (internal/block/merkle.go, block.go) commit to.
use mathlib.Core.Path.{subst}
use toy_blockchain.Prelude.{
  ℕ, zero, suc, ◌<◌, ◌≡◌, refl, ap, sym, ◌∙◌, ◌⊎◌, inl, inr, List, [], ◌∷◌, ◌++◌, map, Text, length,
  arith, All, length-map,
}
use toy_blockchain.Go.Hex.{hex_encode-injective, IsByte}
use toy_blockchain.Crypto.{Crypto, IsCrypto}
use toy_blockchain.Ledger.Transaction.{Transaction, canonical_bytes}
use toy_blockchain.Ledger.Signature.{hash}
use toy_blockchain.Block.Merkle.{next_level, climb, first_node, root_of, merkle_root}
use toy_blockchain.Block.Tree.{climb_single}
use toy_blockchain.Block.Binding.{
  CollidesIn, CollidesIn-append_left, CollidesIn-append_right, all_same_or_collide, tree_inputs,
  climb_binding, IsDigest,
}

module _ (c : Crypto) where
  -- The strings that are hashed to make the Merkle root of a list: the canonical bytes of each
  -- transaction, and the pairs of nodes.
  pub merkle_inputs : List Transaction → List Text
  merkle_inputs txs =
      map canonical_bytes txs ++ tree_inputs c (length (map (hash c) txs)) (map (hash c) txs)

  map-hash : (txs : List Transaction) → map (hash c) txs ≡ map c.sha256 (map canonical_bytes txs)
  unfolding hash
  map-hash [] = refl
  map-hash (tx ∷ txs) = ap (λ l. c.sha256 (canonical_bytes tx) ∷ l) (map-hash txs)

  module _ (laws : IsCrypto c) where
    hashes-IsDigest : (txs : List Transaction) → All (IsDigest c) (map (hash c) txs)
    unfolding hash
    hashes-IsDigest [] = tt
    hashes-IsDigest (tx ∷ txs) = (laws.sha256_length (canonical_bytes tx), hashes-IsDigest txs)

    abbrev AllBytes : List Text → Type 0
    AllBytes = All (All IsByte)

    next_level-AllBytes : (l : List Text) → AllBytes (next_level c l)
    unfolding next_level
    next_level-AllBytes [] = tt
    next_level-AllBytes (a ∷ []) = (laws.sha256_bytes (a ++ a), tt)
    next_level-AllBytes (a ∷ b ∷ l) = (laws.sha256_bytes (a ++ b), next_level-AllBytes l)

    climb-AllBytes : (f : ℕ) (l : List Text) → AllBytes l → AllBytes (climb c f l)
    unfolding climb
    climb-AllBytes zero l h = h
    climb-AllBytes (suc f) [] h = h
    climb-AllBytes (suc f) (a ∷ []) h = h
    climb-AllBytes (suc f) (a ∷ b ∷ l) h =
        climb-AllBytes f (next_level c (a ∷ b ∷ l)) (next_level-AllBytes (a ∷ b ∷ l))

    first_node-AllBytes : (l : List Text) → AllBytes l → All IsByte (first_node l)
    unfolding first_node
    first_node-AllBytes [] h = tt
    first_node-AllBytes (a ∷ l) h = h.0

    hashes-AllBytes : (txs : List Transaction) → AllBytes (map (hash c) txs)
    unfolding hash
    hashes-AllBytes [] = tt
    hashes-AllBytes (tx ∷ txs) = (laws.sha256_bytes (canonical_bytes tx), hashes-AllBytes txs)

    pub root_of-IsByte : (txs : List Transaction) → All IsByte (root_of c (map (hash c) txs))
    unfolding root_of
    root_of-IsByte txs =
        first_node-AllBytes (climb c (length (map (hash c) txs)) (map (hash c) txs))
          (climb-AllBytes (length (map (hash c) txs)) (map (hash c) txs) (hashes-AllBytes txs))

    -- Two levels of one length with one root end the climb at one node.
    climb_same_root :
        (l m : List Text)
        → 0 < length l
        → length l ≡ length m
        → root_of c l ≡ root_of c m
        → climb c (length l) l ≡ climb c (length l) m
    unfolding root_of first_node
    climb_same_root l m p n e =
        let (r, er) = climb_single c (length l) l (omega arith) p in
        let (r', er') = climb_single c (length l) m (omega (arith, n)) (omega (arith, n)) in
        let same : r ≡ r' =
          sym (ap first_node er)
          ∙ e
          ∙ ap (λ f. first_node (climb c f m)) (sym n)
          ∙ ap first_node er' in
        er ∙ ap (λ t. t ∷ []) same ∙ sym er'

    level_binding :
        (txs us : List Transaction) (f g : ℕ)
        → length (map (hash c) txs) ≡ f
        → length (map (hash c) us) ≡ g
        → f ≡ g
        → map (hash c) txs ≡ map (hash c) us
        → (map canonical_bytes txs ≡ map canonical_bytes us)
          ⊎ CollidesIn c (merkle_inputs txs) (merkle_inputs us)
    unfolding merkle_inputs
    level_binding txs us f g ef eg n e =
        elim (all_same_or_collide c (map canonical_bytes txs) (map canonical_bytes us)
          (omega (
            arith,
            n,
            ef,
            eg,
            length-map txs (hash c),
            length-map us (hash c),
            length-map txs canonical_bytes,
            length-map us canonical_bytes,
          ))
          (sym (map-hash txs) ∙ e ∙ map-hash us)) [
            | inl same ↦ inl same
            | inr k ↦ inr (
                CollidesIn-append_left
                  (tree_inputs c (length (map (hash c) txs)) (map (hash c) txs))
                  (tree_inputs c (length (map (hash c) us)) (map (hash c) us)) k)
          ]

    -- Two lists of transactions of one length with one Merkle root have the same canonical bytes,
    -- transaction by transaction, or two of the strings hashed to make the roots collide.
    pub merkle_root_binding :
        (txs us : List Transaction)
        → length txs ≡ length us
        → merkle_root c txs ≡ merkle_root c us
        → (map canonical_bytes txs ≡ map canonical_bytes us)
          ⊎ CollidesIn c (merkle_inputs txs) (merkle_inputs us)
    unfolding merkle_root merkle_inputs
    merkle_root_binding [] [] n e = inl refl
    merkle_root_binding [] (u ∷ us) n e = absurd (omega (arith, n))
    merkle_root_binding (tx ∷ txs) [] n e = absurd (omega (arith, n))
    merkle_root_binding (tx ∷ txs) (u ∷ us) n e =
        let l = map (hash c) (tx ∷ txs) in
        let m = map (hash c) (u ∷ us) in
        let size : length l ≡ length m =
          length-map (tx ∷ txs) (hash c) ∙ n ∙ sym (length-map (u ∷ us) (hash c)) in
        let root =
          hex_encode-injective (root_of c l) (root_of c m) (root_of-IsByte (tx ∷ txs))
            (root_of-IsByte (u ∷ us)) e in
        elim (climb_binding c laws (length l) l m (hashes-IsDigest (tx ∷ txs))
          (hashes-IsDigest (u ∷ us)) size (climb_same_root l m (omega arith) size root)) [
            | inl same ↦ level_binding (tx ∷ txs) (u ∷ us) (length l) (length m) refl refl size same
            | inr k ↦ inr (
                CollidesIn-append_right (map canonical_bytes (tx ∷ txs))
                  (map canonical_bytes (u ∷ us))
                  (subst (λ f. CollidesIn c (tree_inputs c (length l) l) (tree_inputs c f m)) size
                    k))
          ]
