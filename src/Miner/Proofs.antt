-- ===== src/Miner/Proofs.antt =====
-- What a run of internal/miner finds, under any interleaving of the workers and any cancellation.
use mathlib.Core.Path.{subst}
use native.Mathlib.Nat.{add-mod_right, mod-eq_of_lt}
use toy_blockchain.Prelude.{
  ℕ, zero, suc, ◌+◌, ◌%◌, ◌^◌, ◌<◌, ◌≤◌, ◌≡◌, refl, sym, ◌∙◌, ◌⊎◌, Bool, true, false, if◌then◌else◌,
  none, some, List, [], ◌∷◌, ⊤, arith, ok, err, ℤ, All, All-append, get_elem?, inl, inr, Result,
}
use toy_blockchain.Crypto.{Crypto}
use toy_blockchain.Block.Header.{Block, meets_difficulty}
use toy_blockchain.Miner.Search.{
  MinerError, MinerResult, cancelled, Worker, Search, Event, turn, cancel, attempt, worker_count,
  start_from, start, take_turn, turn_at, step, run, outcome, mine_with,
}

-- What the chain asks of a miner: a block that is returned is the candidate with some nonce and
-- its hash, and meets the difficulty.
pub record IsMiner (c : Crypto) (search : Block → Result MinerError MinerResult) : Type 0 where
  pub found :
      (b : Block) (r : MinerResult)
      → search b ≡ ok r
      → (nonce : ℕ) × (r.block ≡ attempt c b nonce)
        × (meets_difficulty r.block.hash r.block.difficulty ≡ some true)

module _ (c : Crypto) (candidate : Block) where
  -- A block that is the candidate with a nonce and its hash, and meets its difficulty.
  pub record IsProof (b : Block) : Type 0 where
    pub nonce : ℕ
    pub tried : b ≡ attempt c candidate nonce
    pub met : meets_difficulty b.hash b.difficulty ≡ some true

  module _ (stride : ℕ) where
    met_or_nothing :
        (stopping : Bool) (w : Worker)
        → (meets_difficulty
                (attempt c candidate w.nonce).hash
                (attempt c candidate w.nonce).difficulty
              ≡ some true)
            × ((take_turn c candidate stride stopping w).sent ≡ attempt c candidate w.nonce ∷ [])
          ⊎ ((take_turn c candidate stride stopping w).sent ≡ [])
    unfolding take_turn
    met_or_nothing stopping w = ground arith

    sent-IsProof :
        (stopping : Bool) (w : Worker) → All IsProof (take_turn c candidate stride stopping w).sent
    sent-IsProof stopping w = elim (met_or_nothing stopping w) [
      | inl (met, e) ↦
          subst (All IsProof) (sym e) (record { nonce = w.nonce; tried = refl; met = met }, tt)
      | inr e ↦ subst (All IsProof) (sym e) tt
    ]

    found_either :
        (b : Bool) (x y : Search)
        → All IsProof x.found
        → All IsProof y.found
        → All IsProof (if b then x else y).found
    found_either true x y hx hy = hx
    found_either false x y hx hy = hy

    turn_at-IsProof :
        (i : ℕ) (ws : List Worker) (s : Search)
        → All IsProof s.found
        → All IsProof (turn_at c candidate stride i ws s).found
    unfolding turn_at
    turn_at-IsProof i [] s h = h
    turn_at-IsProof zero (w ∷ ws) s h =
        found_either w.running _ _ (All-append IsProof s.found _ h (sent-IsProof s.stopped w)) h
    turn_at-IsProof (suc i) (w ∷ ws) s h = turn_at-IsProof i ws s h

    run-IsProof :
        (es : List Event) (s : Search)
        → All IsProof s.found
        → All IsProof (run c candidate stride es s).found
    unfolding run step
    run-IsProof [] s h = h
    run-IsProof (turn i ∷ es) s h =
        run-IsProof es (turn_at c candidate stride i s.workers s) (turn_at-IsProof i s.workers s h)
    run-IsProof (cancel ∷ es) s h = run-IsProof es (record s { stopped = true }) h

    module _ (small : stride < 2 ^ 64) where
      -- Each worker is at a nonce below 2 ^ 64 that leaves its own index as the remainder.
      abbrev Partitioned : ℕ → List Worker → Type 0
      Partitioned k [] = ⊤
      Partitioned k (w ∷ ws) = (w.nonce < 2 ^ 64) × (w.nonce % stride ≡ k) × Partitioned (suc k) ws

      next_nonce :
          (stopping : Bool) (w : Worker)
          → w.nonce < 2 ^ 64
          → ((take_turn c candidate stride stopping w).worker.nonce ≡ w.nonce)
            ⊎ ((take_turn c candidate stride stopping w).worker.nonce ≡ w.nonce + stride)
              × (w.nonce + stride < 2 ^ 64)
      unfolding take_turn
      next_nonce stopping w h = ground arith

      turn-residue :
          (stopping : Bool) (w : Worker) (k : ℕ)
          → w.nonce < 2 ^ 64
          → w.nonce % stride ≡ k
          → let t = (take_turn c candidate stride stopping w).worker in
            (t.nonce < 2 ^ 64) × (t.nonce % stride ≡ k)
      turn-residue stopping w k h e = elim (next_nonce stopping w h) [
        | inl same ↦ (rw same h, rw same e)
        | inr (next, fits) ↦ (rw next fits, rw next (add-mod_right w.nonce stride ∙ e))
      ]

      Partitioned-either :
          (b : Bool) (k : ℕ) (x y : Search)
          → Partitioned k x.workers
          → Partitioned k y.workers
          → Partitioned k (if b then x else y).workers
      Partitioned-either true k x y hx hy = hx
      Partitioned-either false k x y hx hy = hy

      turn_at-Partitioned :
          (k i : ℕ) (ws : List Worker) (s : Search)
          → Partitioned k ws
          → Partitioned k (turn_at c candidate stride i ws s).workers
      unfolding turn_at
      turn_at-Partitioned k i [] s h = tt
      turn_at-Partitioned k zero (w ∷ ws) s h =
          let (fits, residue) = turn-residue s.stopped w k h.0 h.1 in
          Partitioned-either w.running k _ _ (fits, residue, h.2) h
      turn_at-Partitioned k (suc i) (w ∷ ws) s h =
          (h.0, h.1, turn_at-Partitioned (suc k) i ws s h.2)

      run-Partitioned :
          (es : List Event) (s : Search)
          → Partitioned 0 s.workers
          → Partitioned 0 (run c candidate stride es s).workers
      unfolding run step
      run-Partitioned [] s h = h
      run-Partitioned (turn i ∷ es) s h =
          run-Partitioned es (turn_at c candidate stride i s.workers s)
            (turn_at-Partitioned 0 i s.workers s h)
      run-Partitioned (cancel ∷ es) s h = run-Partitioned es (record s { stopped = true }) h

      start_from-Partitioned : (w n : ℕ) → w + n ≤ stride → Partitioned w (start_from w n)
      unfolding start_from
      start_from-Partitioned w zero h = tt
      start_from-Partitioned w (suc n) h =
          (omega arith, mod-eq_of_lt (omega arith), start_from-Partitioned (suc w) n (omega arith))

      Partitioned-at :
          (k i : ℕ) (ws : List Worker) (w : Worker)
          → Partitioned k ws
          → get_elem? ws i ≡ some w
          → w.nonce % stride ≡ k + i
      Partitioned-at k i [] w h e = cc
      Partitioned-at k zero (v ∷ ws) w h e = ground (arith, h.1)
      Partitioned-at k (suc i) (v ∷ ws) w h e = omega (arith, Partitioned-at (suc k) i ws w h.2 e)

  -- Under any schedule the worker at index `i` of `n` is only ever at nonces that leave the
  -- remainder `i` by `n`, so no two workers try one nonce.
  pub workers_partition_nonces :
      (n i : ℕ) (es : List Event) (w : Worker)
      → n < 2 ^ 64
      → get_elem? (run c candidate n es (start n)).workers i ≡ some w
      → w.nonce % n ≡ i
  unfolding start
  workers_partition_nonces n i es w small e = omega (
    arith,
    Partitioned-at n small 0 i (run c candidate n es (start n)).workers w
        (run-Partitioned n small es (start n) (start_from-Partitioned n small 0 n (omega arith))) e,
  )

  winner-IsProof :
      (n : ℕ) (s : Search) (r : MinerResult)
      → All IsProof s.found
      → outcome n s ≡ ok r
      → IsProof r.block
  unfolding outcome
  winner-IsProof n s r h e = go s.found h refl
    where
      go : (l : List Block) → All IsProof l → s.found ≡ l → IsProof r.block
      go [] hl el = absurd (ground arith)
      go (b ∷ l) hl el = let same : r.block ≡ b = ground arith in subst IsProof (sym same) hl.0

-- Whatever block MineWith returns, under any schedule of the workers and any cancellation, is the
-- candidate with some nonce and the hash that belongs to it, and that hash meets the difficulty.
pub mine_with_sound :
    (c : Crypto) (es : List Event) (candidate : Block) (workers : ℤ) (r : MinerResult)
    → mine_with c es candidate workers ≡ some (ok r)
    → IsProof c candidate r.block
unfolding mine_with
mine_with_sound c es candidate workers r h =
    let n = worker_count workers in
    winner-IsProof c candidate n (run c candidate n es (start n)) r
      (run-IsProof c candidate n es (start n) (unfold start in tt)) (ground arith)

-- `Mine` as the chain sees it: a schedule under which the workers have not all stopped counts as
-- cancelled.
unfoldable pub mine_under : Crypto → List Event → ℤ → Block → Result MinerError MinerResult
mine_under c es workers candidate = elim (mine_with c es candidate workers) [
  | none ↦ err cancelled
  | some r ↦ r
]

mine_under-IsProof :
    (c : Crypto) (es : List Event) (workers : ℤ) (candidate : Block) (r : MinerResult)
    → mine_under c es workers candidate ≡ ok r
    → IsProof c candidate r.block
unfolding mine_under
mine_under-IsProof c es workers candidate r h =
    mine_with_sound c es candidate workers r (ground arith)

-- The miner is what the chain asks for.
pub mine_under-IsMiner :
    (c : Crypto) (es : List Event) (workers : ℤ) → IsMiner c (mine_under c es workers)
mine_under-IsMiner c es workers = record {
  found = λ b r h. let p = mine_under-IsProof c es workers b r h in (p.nonce, p.tried, p.met);
}
