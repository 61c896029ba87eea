-- ===== src/Cli/Usage.antt =====
-- The text that the commands and the help of internal/cli write, where it needs no floating-point
-- number. The layout of a time stamp and the counting of characters are functions of Go's library.
use toy_blockchain.Prelude.{
  ℕ, ◌-◌, Option, none, some, List, [], ◌∷◌, ◌++◌, Text, codes, text_eq, length, replicate,
  if◌then◌else◌, ◌==◌, ℤ, map,
}
use toy_blockchain.Crypto.{Crypto}
use toy_blockchain.Go.Decimal.{format_uint, format_int}
use toy_blockchain.Config.{Config}
use toy_blockchain.Ledger.Transaction.{Transaction, show_transaction}
use toy_blockchain.Ledger.Signature.{id}
use toy_blockchain.Block.Header.{Block}
use toy_blockchain.Chain.Mine.{Chain, tip}
use toy_blockchain.Cli.Run.{CommandRow, commands}

-- The texts one after the other.
abbrev joined : List Text → Text
joined [] = []
joined (t ∷ l) = t ++ joined l

-- A line of the pieces.
abbrev line : List Text → Text
line l = joined l ++ b'\n' ∷ []

-- "label (address)" where the two differ.
unfoldable pub describe : Text → Text → Text
describe typed address =
    if text_eq typed address
    then address
    else joined (typed ∷ codes " (" ∷ address ∷ codes ")" ∷ [])

-- The lines of `print` for one block.
unfoldable pub block_text : (ℤ → Text) → Block → Text
block_text rfc3339 b = joined (
    line []
    ∷ line (
        codes "block "
        ∷ format_uint b.height
        ∷ (if b.height == 0 then codes "  (genesis)" else [])
        ∷ [])
    ∷ line (codes "  time       " ∷ rfc3339 b.timestamp ∷ [])
    ∷ line (codes "  hash       " ∷ b.hash ∷ [])
    ∷ line (codes "  prev       " ∷ b.prev_hash ∷ [])
    ∷ line (codes "  merkle     " ∷ b.merkle_root ∷ [])
    ∷ line (
        codes "  nonce      "
        ∷ format_uint b.nonce
        ∷ codes " (difficulty "
        ∷ format_int b.difficulty
        ∷ codes ")"
        ∷ [])
    ∷ line (codes "  transactions (" ∷ format_uint (length b.transactions) ∷ codes ")" ∷ [])
    ∷ joined (map (λ tx. line (codes "    " ∷ show_transaction tx ∷ [])) b.transactions)
    ∷ [])

-- What `print` writes: the blocks, oldest first, and the height of the tip. Without a tip Go panics.
unfoldable pub print_text : (ℤ → Text) → Chain → Option Text
print_text rfc3339 ch = elim (tip ch) [
  | none ↦ none
  | some last ↦ some (
      joined (
        joined (map (block_text rfc3339) ch.blocks)
        ∷ line []
        ∷ line (
            format_uint (length ch.blocks)
            ∷ codes " blocks, tip at height "
            ∷ format_uint last.height
            ∷ [])
        ∷ []))
]

-- What `pending` writes.
unfoldable pub pending_text : Crypto → List Transaction → Text
pending_text c [] = line (codes "nothing pending" ∷ [])
pending_text c (tx ∷ txs) = joined (
    joined
      (map (λ t. line (show_transaction t ∷ []) ++ line (codes "  id " ∷ id c t ∷ [])) (tx ∷ txs))
    ∷ line (format_uint (length (tx ∷ txs)) ∷ codes " transactions pending" ∷ [])
    ∷ [])

-- A text of `n` characters on the left of a column of `width`, as `%-8s` and the like.
abbrev left_of : ℕ → ℕ → Text → Text
left_of width n t = t ++ replicate (width - n) b' '

-- The line of the help for one command.
unfoldable pub command_line : CommandRow → Text
command_line cmd = line (
    codes "  "
    ∷ left_of 8 (length cmd.name) cmd.name
    ∷ codes " "
    ∷ left_of 34 (length cmd.args) cmd.args
    ∷ codes " "
    ∷ cmd.summary
    ∷ [])

-- `runes` counts the characters of a text. The names and the arguments of the table are ASCII.
unfoldable pub usage : (Text → ℕ) → Config → Text
usage runes cfg =
    let number = λ (n : ℤ). left_of 6 (length (format_int n)) (format_int n) in
    joined (
      line (codes "tbc - a toy blockchain" ∷ [])
      ∷ line []
      ∷ line (codes "Usage:" ∷ [])
      ∷ line (codes "  tbc [flags] <command> [arguments]" ∷ [])
      ∷ line []
      ∷ line (codes "Commands:" ∷ [])
      ∷ joined (map command_line commands)
      ∷ line []
      ∷ line (codes "Flags (defaults shown, overridable in .env):" ∷ [])
      ∷ line (
          codes "  -difficulty "
          ∷ number cfg.difficulty
          ∷ codes " leading zero hex digits required"
          ∷ [])
      ∷ line (
          codes "  -max-tx     "
          ∷ number cfg.max_tx_per_block
          ∷ codes " maximum transactions per block"
          ∷ [])
      ∷ line (
          codes "  -reward     "
          ∷ number cfg.mining_reward
          ∷ codes " coins minted per mined block"
          ∷ [])
      ∷ line (
          codes "  -miner      "
          ∷ left_of 6 (runes cfg.miner_address) cfg.miner_address
          ∷ codes " account paid the block reward"
          ∷ [])
      ∷ line (codes "  -data       " ∷ cfg.data_file ∷ [])
      ∷ line (codes "  -keys       " ∷ cfg.key_file ∷ [])
      ∷ line []
      ∷ line (codes "Example:" ∷ [])
      ∷ line (codes "  tbc keygen alice && tbc keygen bob" ∷ [])
      ∷ line (
          codes
            "  tbc faucet alice 100 && tbc mine && tbc send alice bob 30 && tbc mine && tbc validate"
          ∷ [])
      ∷ [])
