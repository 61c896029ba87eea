-- ===== src/Miner/Smallest.antt =====
-- MineWith with one worker, as the comments of internal/miner/miner.go describe it: the search goes
-- up from zero, so it ends at the smallest nonce that meets the difficulty.
use toy_blockchain.Prelude.{
  ℕ, zero, suc, ◌+◌, ◌^◌, ◌<◌, ◌≤◌, ◌≡◌, refl, ◌∙◌, ap, Bool, true, false, some, [], ◌∷◌, replicate,
  Bool-cases, ==_iff, ◌==◌, inl, inr, ℤ, ok, arith,
}
use toy_blockchain.Crypto.{Crypto}
use toy_blockchain.Block.Header.{Block, meets_difficulty}
use toy_blockchain.Miner.Search.{
  Search, turn, attempt, take_turn, turn_at, step, run, start, start_from, worker_count, all_done,
  outcome, mine_with,
}

-- Whether a nonce meets the difficulty; the test itself does not panic.
abbrev pub Tested : Crypto → Block → ℕ → Bool → Type 0
Tested c candidate nonce met =
    meets_difficulty (attempt c candidate nonce).hash candidate.difficulty ≡ some met

-- The one worker about to try nonce `j`, and after it has found nonce `k`.
abbrev searching : ℕ → Search
searching j = record {
  workers = record { nonce = j; tried = j; running = true } ∷ [];
  found = [];
  stopped = false;
  hashes = 0;
  crashed = false;
}

abbrev finished : Crypto → Block → ℕ → Search
finished c candidate k = record {
  workers = record { nonce = k; tried = k + 1; running = false } ∷ [];
  found = attempt c candidate k ∷ [];
  stopped = true;
  hashes = k + 1;
  crashed = false;
}

module _ (c : Crypto) (candidate : Block) where
  step_on :
      (j : ℕ)
      → j + 1 < 2 ^ 64
      → Tested c candidate j false
      → step c candidate 1 (turn 0) (searching j) ≡ searching (suc j)
  unfolding step turn_at take_turn
  step_on j small no_luck = ground (arith, no_luck)

  step_found :
      (k : ℕ)
      → Tested c candidate k true
      → step c candidate 1 (turn 0) (searching k) ≡ finished c candidate k
  unfolding step turn_at take_turn
  step_found k met = ground (arith, met)

  step_idle :
      (k : ℕ) → step c candidate 1 (turn 0) (finished c candidate k) ≡ finished c candidate k
  unfolding step turn_at
  step_idle k = refl

  run_idle :
      (k n : ℕ)
      → run c candidate 1 (replicate n (turn 0)) (finished c candidate k) ≡ finished c candidate k
  unfolding run
  run_idle k zero = refl
  run_idle k (suc n) = ap (run c candidate 1 (replicate n (turn 0))) (step_idle k) ∙ run_idle k n

  -- With turns enough to get from `j` to `k`, where the nonces before `k` fail and `k` does not.
  run_up :
      (n j k : ℕ)
      → j ≤ k
      → k < j + n
      → k < 2 ^ 64
      → ((i : ℕ) → i < k → Tested c candidate i false)
      → Tested c candidate k true
      → run c candidate 1 (replicate n (turn 0)) (searching j) ≡ finished c candidate k
  unfolding run
  run_up zero j k le enough small below met = absurd (omega arith)
  run_up (suc n) j k le enough small below met = elim (Bool-cases (j == k)) [
    | inl here ↦
        let same : j ≡ k = (==_iff j k).0 here in
        ap
          (λ i.
            run c candidate 1 (replicate n (turn 0)) (step c candidate 1 (turn 0) (searching i)))
          same
        ∙ ap (run c candidate 1 (replicate n (turn 0))) (step_found k met)
        ∙ run_idle k n
    | inr before ↦
        let less : j < k = ground arith in
        ap (run c candidate 1 (replicate n (turn 0))) (step_on j (omega arith) (below j less))
        ∙ run_up n (suc j) k (omega arith) (omega arith) small below met
  ]

  -- One worker, or a count below one, whose turns are more than `k` with no cancellation: if `k` is
  -- the smallest nonce whose hash meets the difficulty, MineWith returns the block with the nonce
  -- `k`, after k + 1 hashes.
  pub mine_with_smallest :
      (n k : ℕ) (workers : ℤ)
      → worker_count workers ≡ 1
      → k < n
      → k < 2 ^ 64
      → ((i : ℕ) → i < k → Tested c candidate i false)
      → Tested c candidate k true
      → mine_with c (replicate n (turn 0)) candidate workers
        ≡ some (ok (record { block = attempt c candidate k; hashes = k + 1; workers = 1 }))
  unfolding mine_with start start_from all_done outcome
  mine_with_smallest n k workers one enough small below met =
      let last = run_up n 0 k (omega arith) (omega arith) small below met in
      ground (arith, one, last)
