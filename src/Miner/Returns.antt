-- ===== src/Miner/Returns.antt =====
-- MineWith returns: after a block has been found, with that block, and after a cancellation.
use mathlib.Core.Path.{subst}
use toy_blockchain.Prelude.{
  ℕ, zero, suc, ◌/◌, ◌%◌, ◌^◌, ◌<◌, ◌≤◌, ◌≡◌, ◌≢◌, ◌⊎◌, inl, inr, refl, sym, ◌∙◌, ap, Bool, true,
  false, some, List, [], ◌∷◌, ◌++◌, Bool-cases, ℤ, pos, negsuc, Result, ok, arith,
}
use toy_blockchain.Crypto.{Crypto}
use toy_blockchain.Block.Header.{Block}
use toy_blockchain.Miner.Search.{
  Worker, Search, MinerError, MinerResult, Event, turn, cancel, take_turn, turn_at, step, run,
  start, all_done, is_sent, outcome, mine_with, worker_count,
}
use toy_blockchain.Miner.Smallest.{Tested}
use toy_blockchain.Miner.Proofs.{IsProof, mine_with_sound}
use toy_blockchain.Miner.Progress.{turns_of, NotCancelled, tested, run_keeps, run_finds}
use toy_blockchain.Miner.Stopping.{run-append, ends, all_stop_after_cancel, length_started}

sent_or_none : (xs : List Block) → (is_sent xs ≡ true) ⊎ (xs ≡ [])
sent_or_none [] = inr refl
sent_or_none (x ∷ xs) = inl refl

nonempty {ℓ} : {A : Type ℓ} (xs : List A) → xs ≢ [] → (x : A) × (ys : List A) × (xs ≡ x ∷ ys)
nonempty [] h = absurd (h refl)
nonempty (x ∷ xs) h = (x, xs, refl)

worker_count_positive : (workers : ℤ) → 0 < worker_count workers
unfolding worker_count
worker_count_positive (pos zero) = omega arith
worker_count_positive (pos (suc n)) = omega arith
worker_count_positive (negsuc n) = omega arith

module _ (c : Crypto) (candidate : Block) (n : ℕ) where
  -- Who finds a block stops the others, and at a difficulty that is not negative nobody panics.
  turn_at_tells :
      (j : ℕ) (ws : List Worker) (s : Search)
      → (s.stopped ≡ true) ⊎ (s.found ≡ [])
      → ((turn_at c candidate n j ws s).stopped ≡ true)
        ⊎ ((turn_at c candidate n j ws s).found ≡ [])
  unfolding turn_at
  turn_at_tells j [] s h = h
  turn_at_tells zero (w ∷ ws) s h = elim (sent_or_none (take_turn c candidate n s.stopped w).sent) [
    | inl sent ↦ elim h [
      | inl stop ↦ inl (ground (arith, stop))
      | inr none_yet ↦ elim (Bool-cases w.running) [
        | inl busy ↦ inl (ground (arith, sent, busy))
        | inr idle ↦ inr (ground (arith, none_yet, idle))
      ]
    ]
    | inr nothing ↦ elim h [
      | inl stop ↦ inl (ground (arith, stop))
      | inr none_yet ↦ inr (ground (arith, nothing, none_yet))
    ]
  ]
  turn_at_tells (suc j) (w ∷ ws) s h = turn_at_tells j ws s h

  run_tells :
      (es : List Event) (s : Search)
      → (s.stopped ≡ true) ⊎ (s.found ≡ [])
      → ((run c candidate n es s).stopped ≡ true) ⊎ ((run c candidate n es s).found ≡ [])
  unfolding run step
  run_tells [] s h = h
  run_tells (turn j ∷ es) s h =
      run_tells es (turn_at c candidate n j s.workers s) (turn_at_tells j s.workers s h)
  run_tells (cancel ∷ es) s h = run_tells es (record s { stopped = true }) (inl refl)

  take_turn_calm :
      (d : ℕ) (w : Worker) (b : Bool)
      → candidate.difficulty ≡ pos d
      → (take_turn c candidate n b w).panicked ≡ false
  unfolding take_turn
  take_turn_calm d w b e = elim (tested c candidate n d w.nonce e) [
    | inl met ↦ ground (arith, met)
    | inr no_luck ↦ ground (arith, no_luck)
  ]

  turn_at_calm :
      (d j : ℕ) (ws : List Worker) (s : Search)
      → candidate.difficulty ≡ pos d
      → s.crashed ≡ false
      → (turn_at c candidate n j ws s).crashed ≡ false
  unfolding turn_at
  turn_at_calm d j [] s e h = h
  turn_at_calm d zero (w ∷ ws) s e h = ground (arith, h, take_turn_calm d w s.stopped e)
  turn_at_calm d (suc j) (w ∷ ws) s e h = turn_at_calm d j ws s e h

  run_calm :
      (d : ℕ) (es : List Event) (s : Search)
      → candidate.difficulty ≡ pos d
      → s.crashed ≡ false
      → (run c candidate n es s).crashed ≡ false
  unfolding run step
  run_calm d [] s e h = h
  run_calm d (turn j ∷ es) s e h =
      run_calm d es (turn_at c candidate n j s.workers s) e (turn_at_calm d j s.workers s e h)
  run_calm d (cancel ∷ es) s e h = run_calm d es (record s { stopped = true }) e h

mine_with_won :
    (c : Crypto) (es : List Event) (candidate : Block) (workers : ℤ) (b : Block) (bs : List Block)
    → let s = run c candidate (worker_count workers) es (start (worker_count workers)) in
      s.crashed ≡ false
      → all_done s.workers ≡ true
      → s.found ≡ b ∷ bs
      → mine_with c es candidate workers
        ≡ some (ok (record { block = b; hashes = s.hashes; workers = worker_count workers }))
unfolding mine_with outcome
mine_with_won c es candidate workers b bs uncrashed done e = rw (uncrashed, done, e) refl

-- However far the search has come when the caller cancels it, and even where no nonce meets the
-- difficulty, MineWith returns once each of the workers has had 4096 turns more.
pub mine_with_cancelled :
    (c : Crypto) (candidate : Block) (workers : ℤ) (search rest : List Event)
    → ((i : ℕ) → i < worker_count workers → 4096 ≤ turns_of i rest)
    → (r : Result MinerError MinerResult) × (mine_with c (search ++ cancel ∷ rest) candidate workers
        ≡ some r)
unfolding mine_with
mine_with_cancelled c candidate workers search rest fair =
    let n = worker_count workers in
    let s = run c candidate n search (start n) in
    let done : all_done (run c candidate n (search ++ cancel ∷ rest) (start n)).workers ≡ true =
      subst (λ x. all_done x.workers ≡ true)
        (sym (run-append c candidate n search (cancel ∷ rest) (start n)))
        (all_stop_after_cancel c candidate n rest s (length_started c candidate n search) fair) in
    (outcome n (run c candidate n (search ++ cancel ∷ rest) (start n)), ground (arith, done))

-- Under any interleaving `search` of the workers, in which nobody cancels and the worker that a
-- nonce k meeting the difficulty falls to has more than k / n turns, followed by any `rest` in which
-- each of the n workers has 4096 turns more, MineWith returns a block, and the block is a proof.
pub mine_with_returns :
    (c : Crypto) (candidate : Block) (d k : ℕ) (workers : ℤ) (search rest : List Event)
    → candidate.difficulty ≡ pos d
    → k < 2 ^ 64
    → Tested c candidate k true
    → NotCancelled search
    → k / worker_count workers < turns_of (k % worker_count workers) search
    → ((i : ℕ) → i < worker_count workers → 4096 ≤ turns_of i rest)
    → (r : MinerResult) × (mine_with c (search ++ rest) candidate workers ≡ some (ok r))
      × IsProof c candidate r.block
unfolding mine_with outcome
mine_with_returns c candidate d k workers search rest positive small met calm enough fair =
    let n = worker_count workers in
    let found =
      run_finds c candidate n d k search (worker_count_positive workers) positive small met calm
        enough in
    let s = run c candidate n (search ++ rest) (start n) in
    let uncrashed : s.crashed ≡ false =
      run_calm c candidate n d (search ++ rest) (start n) positive (unfold start in refl) in
    let stop : (run c candidate n search (start n)).stopped ≡ true =
      elim (run_tells c candidate n search (start n) (inr (unfold start in refl))) [
        | inl h ↦ h
        | inr none_found ↦ absurd (found none_found)
      ] in
    let done : all_done s.workers ≡ true = ends c candidate n search rest stop fair in
    let kept : s.found ≢ [] = λ e. found (
      run_keeps c candidate n rest (run c candidate n search (start n))
        (ap (λ x. x.found) (sym (run-append c candidate n search rest (start n))) ∙ e)) in
    let (b, bs, e) = nonempty s.found kept in
    let r : MinerResult = record { block = b; hashes = s.hashes; workers = n } in
    let eq : mine_with c (search ++ rest) candidate workers ≡ some (ok r) =
      mine_with_won c (search ++ rest) candidate workers b bs uncrashed done e in
    (r, eq, mine_with_sound c (search ++ rest) candidate workers r eq)
