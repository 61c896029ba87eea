-- ===== src/Block/Genesis.antt =====
-- internal/block/genesis.go
use toy_blockchain.Prelude.{[], Text, replicate, ℤ, pos}
use toy_blockchain.Crypto.{Crypto}
use toy_blockchain.Block.Header.{Block, new_block, compute_hash}

abbrev pub genesis_prev_hash : Text
genesis_prev_hash = replicate 64 b'0'

-- 2026-01-01T00:00:00Z
abbrev pub genesis_timestamp : ℤ
genesis_timestamp = pos 1767225600

unfoldable pub genesis : Crypto → Block
genesis c =
    let b = new_block c 0 genesis_prev_hash [] (pos 0) genesis_timestamp in
    record b { hash = compute_hash c b }
