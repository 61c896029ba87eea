-- ===== src/Chain/Validate.antt =====
-- internal/chain/validate.go. The short name of the failed rule is a constructor; the detail, a
-- sentence for humans, is left out, but the ledger's error is kept.
use toy_blockchain.Prelude.{
  ℕ, ◌+◌, ◌%◌, ◌^◌, not, ◌||◌, Option, none, some, List, [], ◌∷◌, ⊤, Text, codes, text_eq, length,
  take, leb, ◌++◌, ◌==◌, if◌then◌else◌, ltb_ℤ, Result, ok, err, ◌>>◌, require, reject,
}
use toy_blockchain.Crypto.{Crypto}
use toy_blockchain.Ledger.Transaction.{LedgerError}
use toy_blockchain.Ledger.State.{State, new_state, apply_all}
use toy_blockchain.Block.Header.{Block, has_valid_hash, has_valid_merkle_root, meets_difficulty}
use toy_blockchain.Block.Genesis.{genesis, genesis_prev_hash}

pub data Check : Type 0 where
  genesis_check height_check timestamp_check link_check merkle_check hash_check difficulty_check :
      Check
  ledger_check : LedgerError → Check

pub record ValidationError : Type 0 where
  pub height : ℕ
  pub hash : Text
  pub check : Check

-- A panic of MeetsDifficulty is no ValidationError.
pub data Stop : Type 0 where
  failed : ValidationError → Stop
  panicked : Stop

unfoldable pub fail : Block → Check → Stop
fail b check = failed (record { height = b.height; hash = b.hash; check = check })

unfoldable pub short_hash : Text → Text
short_hash h = if leb (length h) 12 then h else take 12 h ++ codes "..."

-- The three checks against the previous block; block 0 has none.
unfoldable pub check_link : Option Block → Block → Result Stop ⊤
check_link none b = ok tt
check_link (some prev) b = do
  require (b.height == (prev.height + 1) % 2 ^ 64) (fail b height_check)
  reject (ltb_ℤ b.timestamp prev.timestamp) (fail b timestamp_check)
  require (text_eq b.prev_hash prev.hash) (fail b link_check)

unfoldable pub check_difficulty : Block → Result Stop ⊤
check_difficulty b = elim (meets_difficulty b.hash b.difficulty) [
  | none ↦ err panicked
  | some met ↦ require met (fail b difficulty_check)
]

module _ (c : Crypto) where
  -- Rules 2 to 7 for one block.
  unfoldable pub check_block : Option Block → Block → Result Stop ⊤
  check_block prev b = do
    check_link prev b
    require (has_valid_merkle_root c b) (fail b merkle_check)
    require (has_valid_hash c b) (fail b hash_check)
    check_difficulty b

  -- The loop over the blocks, with the previous block and the state replayed so far.
  unfoldable pub validate_from : Option Block → List Block → State → Result Stop ⊤
  validate_from prev [] state = ok tt
  validate_from prev (b ∷ blocks) state =
      let rest = validate_from (some b) blocks (apply_all c b.transactions state).1 in
      check_block prev b >> elim (apply_all c b.transactions state).0 [
        | err e ↦ err (fail b (ledger_check e))
        | ok _ ↦ rest
      ]

  unfoldable pub validate : List Block → Result Stop ⊤
  validate [] = err (failed (record { height = 0; hash = []; check = genesis_check }))
  validate (b ∷ blocks) = do
    reject (not (text_eq b.hash (genesis c).hash) || not (text_eq b.prev_hash genesis_prev_hash))
        (fail b genesis_check)
    validate_from none (b ∷ blocks) new_state
