-- ===== src/Block/Merkle.antt =====
-- internal/block/merkle.go. A digest is 32 bytes long, so the two halves that are copied into the
-- 64-byte array are the digests one after the other.
use toy_blockchain.Prelude.{ℕ, suc, List, [], ◌∷◌, ◌++◌, map, Text, length, replicate}
use toy_blockchain.Go.Hex.{hex_encode}
use toy_blockchain.Crypto.{Crypto}
use toy_blockchain.Ledger.Transaction.{Transaction}
use toy_blockchain.Ledger.Signature.{hash}

abbrev pub empty_merkle_root : Text
empty_merkle_root = replicate 64 b'0'

-- `level[0]`
unfoldable pub first_node : List Text → Text
first_node [] = []
first_node (root ∷ level) = root

module _ (c : Crypto) where
  -- One round of the inner loop: the nodes in pairs, an odd one out with itself.
  unfoldable pub next_level : List Text → List Text
  next_level [] = []
  next_level (left ∷ []) = c.sha256 (left ++ left) ∷ []
  next_level (left ∷ right ∷ level) = c.sha256 (left ++ right) ∷ next_level level

  -- The outer loop, `for len(level) > 1`. The number of rounds is fuel.
  unfoldable pub climb : ℕ → List Text → List Text
  climb (suc rounds) (a ∷ b ∷ level) = climb rounds (next_level (a ∷ b ∷ level))
  climb rounds level = level

  -- A level of n nodes is down to one in at most n rounds.
  unfoldable pub root_of : List Text → Text
  root_of level = first_node (climb (length level) level)

  unfoldable pub merkle_root : List Transaction → Text
  merkle_root [] = empty_merkle_root
  merkle_root (tx ∷ txs) = hex_encode (root_of (map (hash c) (tx ∷ txs)))
