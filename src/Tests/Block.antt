-- ===== src/Tests/Block.antt =====
-- Blocks and the miner at concrete inputs.
use toy_blockchain.Prelude.{
  false, ok, Result, ◌≤◌, zero, suc, ◌<◌, ℕ, ◌%◌, ◌≡◌, refl, true, [], ◌∷◌, codes, pos, replicate,
  some, arith,
}
use toy_blockchain.Tests.Toy.{toy}
use toy_blockchain.Go.Hex.{hex_encode}
use toy_blockchain.Ledger.Transaction.{Transaction}
use toy_blockchain.Block.Header.{Block, compute_hash, meets_difficulty, has_prefix}
use toy_blockchain.Block.Link.{SameHeader, HasDigests, hash_preimage-injective}
use toy_blockchain.Miner.Search.{
  turn, cancel, Worker, MinerError, MinerResult, start, run, mine_with, attempt, take_turn, turn_at,
  step, worker_count, start_from, outcome, all_done,
}
use toy_blockchain.Miner.Smallest.{Tested, mine_with_smallest}
use toy_blockchain.Miner.Progress.{turns_of}
use toy_blockchain.Miner.Returns.{mine_with_returns, mine_with_cancelled}
use toy_blockchain.Miner.Proofs.{IsProof, mine_with_sound, workers_partition_nonces}

abbrev pub payment : ℕ → Transaction
payment n = record {
  from = [];
  to = codes "bob";
  amount = pos 5;
  timestamp = pos n;
  pub_key = [];
  signature = [];
}

abbrev easy : Block
easy = record {
  height = 1;
  timestamp = pos 9;
  transactions = [];
  merkle_root = codes "00";
  prev_hash = codes "ff";
  difficulty = pos 0;
  nonce = 0;
  hash = [];
}

easy-HasDigests : HasDigests easy
easy-HasDigests = record {
  prev_hash = (omega arith, (omega arith, tt));
  merkle_root = (omega arith, (omega arith, tt));
}

hash_preimage-injective_example : SameHeader easy easy
hash_preimage-injective_example =
    hash_preimage-injective easy easy easy-HasDigests easy-HasDigests refl

abbrev mined_easy : MinerResult
mined_easy = record { block = attempt toy easy 0; hashes = 1; workers = 1 }

mine_with_sound_example : IsProof toy easy mined_easy.block
unfolding mine_with run step turn_at take_turn start start_from worker_count outcome all_done
    meets_difficulty has_prefix compute_hash hex_encode
mine_with_sound_example = mine_with_sound toy (turn 0 ∷ []) easy (pos 1) mined_easy refl

abbrev second : Worker
second = record { nonce = 1; tried = 0; running = true }

workers_partition_nonces_example : 1 % 2 ≡ 1
unfolding run step turn_at take_turn start start_from meets_difficulty has_prefix
workers_partition_nonces_example =
    workers_partition_nonces toy easy 2 1 (turn 0 ∷ []) second (omega arith) refl

easy_met : Tested toy easy 0 true
unfolding meets_difficulty has_prefix compute_hash hex_encode
easy_met = refl

none_below : (i : ℕ) → i < 0 → Tested toy easy i false
none_below i h = absurd (omega arith)

mine_with_smallest_example :
    mine_with toy (turn 0 ∷ turn 0 ∷ turn 0 ∷ []) easy (pos 1)
    ≡ some (ok (record { block = attempt toy easy 0; hashes = 1; workers = 1 }))
unfolding worker_count
mine_with_smallest_example =
    mine_with_smallest toy easy 3 0 (pos 1) refl (omega arith) (omega arith) none_below easy_met

easy_met_1 : Tested toy easy 1 true
unfolding meets_difficulty has_prefix compute_hash hex_encode
easy_met_1 = refl

turns_alone : (m : ℕ) → turns_of 0 (replicate m (turn 0)) ≡ m
turns_alone zero = refl
turns_alone (suc m) = let rest = turns_alone m in omega arith

fair_alone : (i : ℕ) → i < 1 → 4096 ≤ turns_of i (replicate 4096 (turn 0))
fair_alone zero h = let all = turns_alone 4096 in omega arith
fair_alone (suc i) h = absurd (omega arith)

mine_with_returns_example :
    (r : MinerResult) × (mine_with toy (turn 0 ∷ turn 0 ∷ replicate 4096 (turn 0)) easy (pos 1)
      ≡ some (ok r))
    × IsProof toy easy r.block
unfolding worker_count
mine_with_returns_example =
    mine_with_returns toy easy 0 1 (pos 1) (turn 0 ∷ turn 0 ∷ []) (replicate 4096 (turn 0)) refl
      (omega arith) easy_met_1 tt (omega arith) fair_alone

mine_with_cancelled_example :
    (r : Result MinerError MinerResult) × (mine_with toy
        (turn 0 ∷ cancel ∷ replicate 4096 (turn 0))
        easy
        (pos 1)
      ≡ some r)
unfolding worker_count
mine_with_cancelled_example =
    mine_with_cancelled toy easy (pos 1) (turn 0 ∷ []) (replicate 4096 (turn 0)) fair_alone
