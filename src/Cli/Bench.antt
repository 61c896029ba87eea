-- ===== src/Cli/Bench.antt =====
-- internal/bench/bench.go. The average is kept as the two numbers whose quotient it is, and the
-- times are left out; the miner is an argument, with its number of workers.
use toy_blockchain.Prelude.{
  ℕ, zero, suc, ◌+◌, ◌%◌, ◌^◌, List, [], ◌∷◌, ◌++◌, codes, ℤ, pos, ◌+64◌, Result, ok, err,
}
use toy_blockchain.Crypto.{Crypto}
use toy_blockchain.Ledger.Transaction.{new_coinbase}
use toy_blockchain.Block.Header.{Block, new_block}
use toy_blockchain.Block.Genesis.{genesis_prev_hash, genesis_timestamp}
use toy_blockchain.Miner.Search.{MinerError, MinerResult, worker_count}

-- AvgHashes is total_hashes / runs.
pub record Sample : Type 0 where
  pub difficulty : ℤ
  pub runs : ℕ
  pub total_hashes : ℕ
  pub workers : ℤ

unfoldable pub candidate : Crypto → ℤ → ℕ → Block
candidate c difficulty run =
    new_block c 1 genesis_prev_hash (new_coinbase (codes "miner") (pos 50) (pos run) ∷ [])
      difficulty (genesis_timestamp +64 pos run)

module _ (c : Crypto) (search : ℤ → Block → Result MinerError MinerResult) (workers : ℤ) where
  -- The inner loop: `left` more runs from `run` on.
  unfoldable pub mine_runs : ℤ → (left run total : ℕ) → Result MinerError ℕ
  mine_runs difficulty zero run total = ok total
  mine_runs difficulty (suc left) run total = elim (search workers (candidate c difficulty run)) [
    | err e ↦ err e
    | ok r ↦ mine_runs difficulty left (suc run) ((total + r.hashes) % 2 ^ 64)
  ]

  -- The outer loop, with the samples so far; they are returned beside an error too.
  unfoldable pub measure : ℕ → List Sample → List ℤ → List Sample × Result MinerError (Unit {0})
  measure runs samples [] = (samples, ok tt)
  measure runs samples (difficulty ∷ difficulties) = elim (mine_runs difficulty runs 0 0) [
    | err e ↦ (samples, err e)
    | ok total ↦
        measure runs
          (samples
            ++ record {
              difficulty = difficulty;
              runs = runs;
              total_hashes = total;
              workers = workers;
            }
              ∷ [])
          difficulties
  ]

  -- `if runs < 1 { runs = 1 }`
  unfoldable pub run_bench : List ℤ → ℤ → List Sample × Result MinerError (Unit {0})
  run_bench difficulties runs = measure (worker_count runs) [] difficulties
