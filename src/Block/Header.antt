-- ===== src/Block/Header.antt =====
-- internal/block/block.go. `uint64` fields are numbers, `int64` and `int` fields integers.
use toy_blockchain.Prelude.{
  ℕ, Bool, true, false, ◌&&◌, Option, none, some, List, [], ◌∷◌, ◌++◌, Text, codes, text_eq, length,
  replicate, ◌==◌, ltb, if◌then◌else◌, ℤ, pos, negsuc,
}
use toy_blockchain.Go.Decimal.{format_uint, format_int}
use toy_blockchain.Go.Hex.{hex_encode}
use toy_blockchain.Crypto.{Crypto}
use toy_blockchain.Ledger.Transaction.{Transaction}
use toy_blockchain.Block.Merkle.{merkle_root}

pub record Block : Type 0 where
  pub height : ℕ
  pub timestamp : ℤ
  pub transactions : List Transaction
  pub merkle_root : Text
  pub prev_hash : Text
  pub difficulty : ℤ
  pub nonce : ℕ
  pub hash : Text

-- block|height|timestamp|prev_hash|merkle_root|difficulty|nonce
unfoldable pub hash_preimage : Block → Text
hash_preimage b =
    codes "block|"
    ++ (format_uint b.height
        ++ b'|'
          ∷ (format_int b.timestamp
              ++ b'|'
                ∷ (b.prev_hash
                    ++ b'|'
                      ∷ (b.merkle_root
                          ++ b'|' ∷ (format_int b.difficulty ++ b'|' ∷ format_uint b.nonce)))))

-- strings.HasPrefix
unfoldable pub has_prefix : Text → Text → Bool
has_prefix s [] = true
has_prefix [] (p ∷ prefix) = false
has_prefix (a ∷ s) (p ∷ prefix) = a == p && has_prefix s prefix

-- `none` is the panic of `strings.Repeat` on a negative count.
unfoldable pub meets_difficulty : Text → ℤ → Option Bool
meets_difficulty hash (pos difficulty) =
    if ltb (length hash) difficulty
    then some false
    else some (has_prefix hash (replicate difficulty b'0'))
meets_difficulty hash (negsuc n) = none

module _ (c : Crypto) where
  -- `New`: everything but the nonce and the hash.
  unfoldable pub new_block : ℕ → Text → List Transaction → ℤ → ℤ → Block
  new_block height prev_hash txs difficulty timestamp = record {
    height = height;
    timestamp = timestamp;
    transactions = txs;
    merkle_root = merkle_root c txs;
    prev_hash = prev_hash;
    difficulty = difficulty;
    nonce = 0;
    hash = [];
  }

  unfoldable pub compute_hash : Block → Text
  compute_hash b = hex_encode (c.sha256 (hash_preimage b))

  unfoldable pub has_valid_hash : Block → Bool
  has_valid_hash b = text_eq b.hash (compute_hash b)

  unfoldable pub has_valid_merkle_root : Block → Bool
  has_valid_merkle_root b = text_eq b.merkle_root (merkle_root c b.transactions)
