-- ===== src/Miner/Stopping.antt =====
-- The loops of internal/miner/miner.go look at the context every cancelCheckInterval hashes: once
-- the search is stopped, each worker stops within as many turns of its own.
use mathlib.Core.Path.{subst}
use toy_blockchain.Prelude.{
  ℕ, zero, suc, ◌+◌, ◌-◌, ◌%◌, ◌<◌, ◌≤◌, ◌≡◌, inl, inr, refl, sym, ◌∙◌, ap, Bool, true, false, some,
  List, [], ◌∷◌, ◌++◌, get_elem?, length, Bool-cases, ==_iff, ◌==◌, arith,
}
use toy_blockchain.Crypto.{Crypto}
use toy_blockchain.Block.Header.{Block}
use toy_blockchain.Miner.Search.{
  Worker, Search, Event, turn, cancel, take_turn, turn_at, step, run, start, start_from, all_done,
}
use toy_blockchain.Miner.Progress.{turns_of, turn_at_self, turn_at_other}

-- Every loop has ended once all the workers that there are have stopped.
abbrev Stopped : List Worker → ℕ → Type 0
Stopped ws i = (w : Worker) × (get_elem? ws i ≡ some w) × (w.running ≡ false)

all_done_of : (ws : List Worker) → ((i : ℕ) → i < length ws → Stopped ws i) → all_done ws ≡ true
unfolding all_done
all_done_of [] h = refl
all_done_of (w ∷ ws) h =
    let (v, at, idle) = h 0 (omega arith) in
    let same : w ≡ v = ground arith in
    let rest = all_done_of ws (λ i less. h (suc i) (omega arith)) in
    ground (arith, same, idle, rest)

elem_at {ℓ} :
    {A : Type ℓ} (xs : List A) (i : ℕ) → i < length xs → (x : A) × (get_elem? xs i ≡ some x)
elem_at [] i h = absurd (omega arith)
elem_at (x ∷ xs) zero h = (x, refl)
elem_at (x ∷ xs) (suc i) h = elem_at xs i (omega arith)

length-start_from : (w n : ℕ) → length (start_from w n) ≡ n
unfolding start_from
length-start_from w zero = refl
length-start_from w (suc n) = ap suc (length-start_from (suc w) n)

module _ (c : Crypto) (candidate : Block) (n : ℕ) where
  length-turn_at :
      (j : ℕ) (ws : List Worker) (s : Search)
      → length (turn_at c candidate n j ws s).workers ≡ length ws
  unfolding turn_at
  length-turn_at j [] s = refl
  length-turn_at zero (w ∷ ws) s = ground arith
  length-turn_at (suc j) (w ∷ ws) s = ap suc (length-turn_at j ws s)

  length-run :
      (es : List Event) (s : Search) → length (run c candidate n es s).workers ≡ length s.workers
  unfolding run step
  length-run [] s = refl
  length-run (turn j ∷ es) s =
      length-run es (turn_at c candidate n j s.workers s) ∙ length-turn_at j s.workers s
  length-run (cancel ∷ es) s = length-run es (record s { stopped = true })

  turn_at-stopped :
      (j : ℕ) (ws : List Worker) (s : Search)
      → s.stopped ≡ true
      → (turn_at c candidate n j ws s).stopped ≡ true
  unfolding turn_at
  turn_at-stopped j [] s h = h
  turn_at-stopped zero (w ∷ ws) s h = ground (arith, h)
  turn_at-stopped (suc j) (w ∷ ws) s h = turn_at-stopped j ws s h

  turn_at_idle :
      (i : ℕ) (ws : List Worker) (s : Search) (w : Worker)
      → get_elem? ws i ≡ some w
      → w.running ≡ false
      → get_elem? (turn_at c candidate n i ws s).workers i ≡ some w
  unfolding turn_at
  turn_at_idle i [] s w h r = h
  turn_at_idle zero (v ∷ ws) s w h r =
      let same : v ≡ w = ground arith in
      let idle : v.running ≡ false = cc (same, r) in ground (arith, idle, h)
  turn_at_idle (suc i) (v ∷ ws) s w h r = turn_at_idle i ws s w h r

  run_idle :
      (i : ℕ) (es : List Event) (s : Search)
      → Stopped s.workers i
      → Stopped (run c candidate n es s).workers i
  unfolding run step
  run_idle i [] s h = h
  run_idle i (cancel ∷ es) s h = run_idle i es (record s { stopped = true }) h
  run_idle i (turn j ∷ es) s (w, at, idle) = run_idle i es (turn_at c candidate n j s.workers s) (
    w,
    elim (Bool-cases (j == i)) [
      | inr other ↦ turn_at_other c candidate n i j s.workers s other ∙ at
      | inl own ↦
          subst (λ x. get_elem? (turn_at c candidate n x s.workers s).workers i ≡ some w)
            (sym ((==_iff j i).0 own)) (turn_at_idle i s.workers s w at idle)
    ],
    idle,
  )

  -- A turn of a stopped search: the worker stops where its count reaches a multiple of the interval.
  take_turn_last :
      (w : Worker)
      → (w.tried + 1) % 4096 ≡ 0
      → (take_turn c candidate n true w).worker.running ≡ false
  unfolding take_turn
  take_turn_last w h = ground (arith, h)

  take_turn_tried :
      (w : Worker) (b : Bool) → (take_turn c candidate n b w).worker.tried ≡ w.tried + 1
  unfolding take_turn
  take_turn_tried w b = ground arith

  -- Worker `i` counts up to the next multiple of the interval in `left` turns.
  stops_after :
      (i : ℕ) (es : List Event) (s : Search) (w : Worker) (left : ℕ)
      → s.stopped ≡ true
      → get_elem? s.workers i ≡ some w
      → (w.tried + suc left) % 4096 ≡ 0
      → left < turns_of i es
      → Stopped (run c candidate n es s).workers i
  unfolding run step
  stops_after i [] s w left stop at count enough = absurd (omega arith)
  stops_after i (cancel ∷ es) s w left stop at count enough =
      stops_after i es (record s { stopped = true }) w left refl at count enough
  stops_after i (turn j ∷ es) s w left stop at count enough =
      let s' = turn_at c candidate n j s.workers s in
      elim (Bool-cases (j == i)) [
        | inr other ↦
            stops_after i es s' w left (turn_at-stopped j s.workers s stop)
              (turn_at_other c candidate n i j s.workers s other ∙ at) count (ground arith)
        | inl own ↦ elim (Bool-cases w.running) [
          | inr idle ↦ run_idle i (turn j ∷ es) s (w, at, idle)
          | inl busy ↦
              let t = (take_turn c candidate n true w).worker in
              let at' =
                subst (λ x. get_elem? (turn_at c candidate n x s.workers s).workers i ≡ some t)
                  (sym ((==_iff j i).0 own))
                  ((turn_at_self c candidate n i s.workers s w at busy).0
                    ∙ ap (λ b. some (take_turn c candidate n b w).worker) stop) in
              elim (Bool-cases (left == 0)) [
                | inl last ↦ run_idle i es s' (t, at', take_turn_last w (ground arith))
                | inr more ↦
                    stops_after i es s' t (left - 1) (turn_at-stopped j s.workers s stop) at'
                      (let tried = take_turn_tried w true in
                        let same : t.tried + suc (left - 1) ≡ w.tried + suc left = grind arith in
                        ap (λ x. x % 4096) same ∙ count)
                      (ground arith)
              ]
        ]
      ]

  pub run-append :
      (es es' : List Event) (s : Search)
      → run c candidate n (es ++ es') s ≡ run c candidate n es' (run c candidate n es s)
  unfolding run
  run-append [] es' s = refl
  run-append (e ∷ es) es' s = run-append es es' (step c candidate n e s)

  -- Once stopped, with 4096 turns for each of the workers, all loops have ended.
  all_stop :
      (es : List Event) (s : Search)
      → s.stopped ≡ true
      → ((i : ℕ) → i < length s.workers → 4096 ≤ turns_of i es)
      → all_done (run c candidate n es s).workers ≡ true
  all_stop es s stop fair = all_done_of (run c candidate n es s).workers (λ i less.
      let here : i < length s.workers = subst (λ m. i < m) (length-run es s) less in
      let (w, at) = elem_at s.workers i here in
      stops_after i es s w (4095 - w.tried % 4096) stop at (omega arith)
        (let turns = fair i here in omega arith))

  pub length_started : (es : List Event) → length (run c candidate n es (start n)).workers ≡ n
  unfolding start
  length_started es = length-run es (start n) ∙ length-start_from 0 n

  pub all_stop_after_cancel :
      (es : List Event) (s : Search)
      → length s.workers ≡ n
      → ((i : ℕ) → i < n → 4096 ≤ turns_of i es)
      → all_done (run c candidate n (cancel ∷ es) s).workers ≡ true
  unfolding run step
  all_stop_after_cancel es s size fair =
      all_stop es (record s { stopped = true }) refl
        (λ i less. fair i (subst (λ m. i < m) size less))

  -- What MineWith has once its workers are told to stop and then each have their turns.
  pub ends :
      (es es' : List Event)
      → (run c candidate n es (start n)).stopped ≡ true
      → ((i : ℕ) → i < n → 4096 ≤ turns_of i es')
      → all_done (run c candidate n (es ++ es') (start n)).workers ≡ true
  ends es es' stop fair =
      subst (λ s. all_done s.workers ≡ true) (sym (run-append es es' (start n)))
        (all_stop es' (run c candidate n es (start n)) stop
          (λ i less. fair i (subst (λ m. i < m) (length_started es) less)))
