-- ===== src/Block/Tree.antt =====
-- What the Merkle root of internal/block/merkle.go commits to, and what it does not.
use mathlib.Core.List.{map-append}
use toy_blockchain.Prelude.{
  ℕ, zero, suc, ◌+◌, ◌*◌, ◌%◌, ◌≤◌, ◌<◌, ◌≡◌, refl, ap, sym, ◌∙◌, List, [], ◌∷◌, ◌++◌, map, Text,
  length, arith, last, length-append, length-map,
}
use toy_blockchain.Go.Hex.{hex_encode}
use toy_blockchain.Crypto.{Crypto}
use toy_blockchain.Ledger.Transaction.{Transaction}
use toy_blockchain.Ledger.Signature.{hash}
use toy_blockchain.Block.Merkle.{next_level, climb, first_node, root_of, merkle_root}

module _ (c : Crypto) where
  -- A round leaves half of the nodes, rounded up.
  length-next_level : (l : List Text) → length (next_level c l) * 2 ≤ length l + 1
  unfolding next_level
  length-next_level [] = omega arith
  length-next_level (a ∷ []) = omega arith
  length-next_level (a ∷ b ∷ l) = omega (arith, length-next_level l)

  next_level_pos : (l : List Text) → 0 < length l → 0 < length (next_level c l)
  unfolding next_level
  next_level_pos [] h = h
  next_level_pos (a ∷ []) h = omega arith
  next_level_pos (a ∷ b ∷ l) h = omega arith

  -- With as many rounds as nodes the loop ends with one node.
  pub climb_single :
      (f : ℕ) (l : List Text)
      → length l ≤ f
      → 0 < length l
      → (root : Text) × (climb c f l ≡ root ∷ [])
  unfolding climb
  climb_single zero [] h p = absurd (omega arith)
  climb_single zero (a ∷ l) h p = absurd (omega arith)
  climb_single (suc f) [] h p = absurd (omega arith)
  climb_single (suc f) (a ∷ []) h p = (a, refl)
  climb_single (suc f) (a ∷ b ∷ l) h p =
      climb_single f (next_level c (a ∷ b ∷ l)) (omega (arith, length-next_level (a ∷ b ∷ l)))
        (next_level_pos (a ∷ b ∷ l) p)

  climb_short : (f : ℕ) (l : List Text) → length l ≤ 1 → climb c f l ≡ l
  unfolding climb
  climb_short zero l h = refl
  climb_short (suc f) [] h = refl
  climb_short (suc f) (a ∷ []) h = refl
  climb_short (suc f) (a ∷ b ∷ l) h = absurd (omega arith)

  -- More rounds change nothing.
  climb_fuel : (f g : ℕ) (l : List Text) → length l ≤ f → length l ≤ g → climb c f l ≡ climb c g l
  unfolding climb
  climb_fuel f g [] h k = climb_short f [] (omega arith) ∙ sym (climb_short g [] (omega arith))
  climb_fuel f g (a ∷ []) h k =
      climb_short f (a ∷ []) (omega arith) ∙ sym (climb_short g (a ∷ []) (omega arith))
  climb_fuel zero g (a ∷ b ∷ l) h k = absurd (omega arith)
  climb_fuel (suc f) zero (a ∷ b ∷ l) h k = absurd (omega arith)
  climb_fuel (suc f) (suc g) (a ∷ b ∷ l) h k =
      climb_fuel f g (next_level c (a ∷ b ∷ l)) (omega (arith, length-next_level (a ∷ b ∷ l)))
        (omega (arith, length-next_level (a ∷ b ∷ l)))

  next_level_duplicate :
      (a : Text) (l : List Text)
      → length (a ∷ l) % 2 ≡ 1
      → next_level c ((a ∷ l) ++ last a l ∷ []) ≡ next_level c (a ∷ l)
  unfolding next_level
  next_level_duplicate a [] h = refl
  next_level_duplicate a (b ∷ []) h = absurd (omega arith)
  next_level_duplicate a (b ∷ d ∷ l) h =
      ap (λ t. c.sha256 (a ++ b) ∷ t) (next_level_duplicate d l (omega arith))

  climb_step :
      (n : ℕ) (l : List Text)
      → 2 ≤ length l
      → length l ≤ n
      → climb c n l ≡ climb c n (next_level c l)
  unfolding climb
  climb_step n [] h k = absurd (omega arith)
  climb_step n (a ∷ []) h k = absurd (omega arith)
  climb_step zero (a ∷ b ∷ l) h k = absurd (omega arith)
  climb_step (suc n) (a ∷ b ∷ l) h k =
      climb_fuel n (suc n) (next_level c (a ∷ b ∷ l)) (omega (arith, length-next_level (a ∷ b ∷ l)))
        (omega (arith, length-next_level (a ∷ b ∷ l)))

  root_of_duplicate :
      (a : Text) (l : List Text)
      → length (a ∷ l) % 2 ≡ 1
      → 3 ≤ length (a ∷ l)
      → root_of c ((a ∷ l) ++ last a l ∷ []) ≡ root_of c (a ∷ l)
  unfolding root_of
  root_of_duplicate a l odd three =
      let longer = (a ∷ l) ++ last a l ∷ [] in
      let size = length-append (a ∷ l) (last a l ∷ []) in
      ap first_node (
        climb_step (length longer) longer (omega (arith, size)) (omega arith)
        ∙ ap (climb c (length longer)) (next_level_duplicate a l odd)
        ∙ sym (climb_step (length longer) (a ∷ l) (omega arith) (omega (arith, size)))
        ∙ climb_fuel (length longer) (length (a ∷ l)) (a ∷ l) (omega (arith, size)) (omega arith))

  last-map :
      (tx : Transaction) (txs : List Transaction)
      → last (hash c tx) (map (hash c) txs) ≡ hash c (last tx txs)
  last-map tx [] = refl
  last-map tx (u ∷ txs) = last-map u txs

  -- Repeating the last transaction of a list of odd length, from three on, leaves the Merkle root
  -- as it is: the root does not determine the transactions.
  pub merkle_root_duplicate :
      (tx : Transaction) (txs : List Transaction)
      → length (tx ∷ txs) % 2 ≡ 1
      → 3 ≤ length (tx ∷ txs)
      → merkle_root c ((tx ∷ txs) ++ last tx txs ∷ []) ≡ merkle_root c (tx ∷ txs)
  unfolding merkle_root
  merkle_root_duplicate tx txs odd three =
      ap (λ l. hex_encode (root_of c l))
        (map-append (hash c) (tx ∷ txs) (last tx txs ∷ [])
          ∙ ap (λ r. map (hash c) (tx ∷ txs) ++ r ∷ []) (sym (last-map tx txs)))
      ∙ ap hex_encode (
          root_of_duplicate (hash c tx) (map (hash c) txs) (omega (arith, length-map txs (hash c)))
            (omega (arith, length-map txs (hash c))))
