-- ===== src/Miner/Progress.antt =====
-- MineWith with any number of workers: the nonce that a worker has before it is tried once that
-- worker has had its turns, whatever the others do in between.
use mathlib.Core.Path.{subst}
use native.Mathlib.Nat.{mod-lt, div-add-mod'}
use toy_blockchain.Prelude.{
  ℕ, zero, suc, ◌+◌, ◌*◌, ◌/◌, ◌%◌, ◌^◌, ◌<◌, ◌≡◌, ◌≢◌, ◌⊎◌, inl, inr, refl, sym, ◌∙◌, ap, true,
  false, some, List, [], ◌∷◌, ◌++◌, get_elem?, length, replicate, ltb, Text, Bool-cases, ==_iff,
  ◌==◌, if◌then◌else◌, pos, arith,
}
use toy_blockchain.Crypto.{Crypto}
use toy_blockchain.Block.Header.{Block, has_prefix, meets_difficulty}
use toy_blockchain.Miner.Search.{
  Worker, Search, Event, turn, cancel, attempt, take_turn, turn_at, step, run, start, start_from,
}
use toy_blockchain.Miner.Smallest.{Tested}

-- How many turns of a schedule are the worker's.
abbrev pub turns_of : ℕ → List Event → ℕ
turns_of i [] = 0
turns_of i (turn j ∷ es) = (if j == i then 1 else 0) + turns_of i es
turns_of i (cancel ∷ es) = turns_of i es

abbrev pub NotCancelled : List Event → Type 0
NotCancelled [] = Unit
NotCancelled (turn j ∷ es) = NotCancelled es
NotCancelled (cancel ∷ es) = ⊥

append-eq-nil {ℓ} : {A : Type ℓ} (xs ys : List A) → xs ++ ys ≡ [] → (xs ≡ []) × (ys ≡ [])
append-eq-nil [] ys h = (refl, h)
append-eq-nil (x ∷ xs) ys h = cc

meets_difficulty_returns :
    (hash : Text) (d : ℕ)
    → (meets_difficulty hash (pos d) ≡ some true) ⊎ (meets_difficulty hash (pos d) ≡ some false)
unfolding meets_difficulty
meets_difficulty_returns hash d = elim (Bool-cases (ltb (length hash) d)) [
  | inl short ↦ inr (ground arith)
  | inr long ↦ elim (Bool-cases (has_prefix hash (replicate d b'0'))) [
    | inl zeros ↦ inl (ground arith)
    | inr other ↦ inr (ground arith)
  ]
]

module _ (c : Crypto) (candidate : Block) (n : ℕ) where
  -- A turn adds to what has been found, and without an addition nothing is stopped.
  turn_at-found :
      (j : ℕ) (ws : List Worker) (s : Search)
      → (turn_at c candidate n j ws s).found ≡ []
      → (s.found ≡ []) × ((turn_at c candidate n j ws s).stopped ≡ s.stopped)
  unfolding turn_at
  turn_at-found j [] s h = (h, refl)
  turn_at-found zero (w ∷ ws) s h =
      ground (arith, append-eq-nil s.found (take_turn c candidate n s.stopped w).sent)
  turn_at-found (suc j) (w ∷ ws) s h = turn_at-found j ws s h

  pub turn_at_other :
      (i j : ℕ) (ws : List Worker) (s : Search)
      → (j == i) ≡ false
      → get_elem? (turn_at c candidate n j ws s).workers i ≡ get_elem? ws i
  unfolding turn_at
  turn_at_other i j [] s h = refl
  turn_at_other zero zero (w ∷ ws) s h = cc
  turn_at_other (suc i) zero (w ∷ ws) s h = ground arith
  turn_at_other zero (suc j) (w ∷ ws) s h = refl
  turn_at_other (suc i) (suc j) (w ∷ ws) s h = turn_at_other i j ws s (ground arith)

  pub turn_at_self :
      (i : ℕ) (ws : List Worker) (s : Search) (w : Worker)
      → get_elem? ws i ≡ some w
      → w.running ≡ true
      → let t = take_turn c candidate n s.stopped w in
        (get_elem? (turn_at c candidate n i ws s).workers i ≡ some t.worker)
        × ((turn_at c candidate n i ws s).found ≡ s.found ++ t.sent)
  unfolding turn_at
  turn_at_self i [] s w h r = cc
  turn_at_self zero (v ∷ ws) s w h r =
      let same : v ≡ w = ground arith in
      let running : v.running ≡ true = cc (same, r) in
      subst
        (λ u.
          (get_elem? (turn_at c candidate n 0 (v ∷ ws) s).workers 0
            ≡ some (take_turn c candidate n s.stopped u).worker)
          × ((turn_at c candidate n 0 (v ∷ ws) s).found
              ≡ s.found ++ (take_turn c candidate n s.stopped u).sent))
        same (rw (running, turn_at) (refl, refl))
  turn_at_self (suc i) (v ∷ ws) s w h r = turn_at_self i ws s w h r

  -- A worker that is not told to stop either sends the block of its nonce or goes on to the next.
  take_turn_met :
      (w : Worker)
      → Tested c candidate w.nonce true
      → (take_turn c candidate n false w).sent ≡ attempt c candidate w.nonce ∷ []
  unfolding take_turn
  take_turn_met w met = ground (arith, met)

  take_turn_on :
      (w : Worker)
      → Tested c candidate w.nonce false
      → w.nonce + n < 2 ^ 64
      → (take_turn c candidate n false w).worker
        ≡ record { nonce = w.nonce + n; tried = w.tried + 1; running = true }
  unfolding take_turn
  take_turn_on w no_luck small = ground (arith, no_luck)

  pub tested :
      (d nonce : ℕ)
      → candidate.difficulty ≡ pos d
      → Tested c candidate nonce true ⊎ Tested c candidate nonce false
  tested d nonce e =
      subst
        (λ z.
          (meets_difficulty (attempt c candidate nonce).hash z ≡ some true)
          ⊎ (meets_difficulty (attempt c candidate nonce).hash z ≡ some false))
        (sym e) (meets_difficulty_returns (attempt c candidate nonce).hash d)

  -- Once something has been found it stays.
  pub run_keeps :
      (es : List Event) (s : Search) → (run c candidate n es s).found ≡ [] → s.found ≡ []
  unfolding run step
  run_keeps [] s h = h
  run_keeps (turn j ∷ es) s h =
      (turn_at-found j s.workers s (run_keeps es (turn_at c candidate n j s.workers s) h)).0
  run_keeps (cancel ∷ es) s h = run_keeps es (record s { stopped = true }) h

  module _ (d k : ℕ) (positive : candidate.difficulty ≡ pos d) (small : k < 2 ^ 64)
      (met : Tested c candidate k true) (i : ℕ) where
    -- A turn of worker `i`, `left` steps before `k`, that finds nothing: it is one step nearer.
    own_turn :
        (s : Search) (w : Worker) (left : ℕ)
        → s.stopped ≡ false
        → get_elem? s.workers i ≡ some w
        → w.running ≡ true
        → w.nonce + left * n ≡ k
        → (turn_at c candidate n i s.workers s).found ≡ []
        → (w' : Worker) × (m : ℕ) × (left ≡ suc m)
          × (get_elem? (turn_at c candidate n i s.workers s).workers i ≡ some w')
          × (w'.running ≡ true)
          × (w'.nonce + m * n ≡ k)
    own_turn s w left going at running reach nothing =
        let (at', found') = turn_at_self i s.workers s w at running in
        let unsent =
          (append-eq-nil s.found (take_turn c candidate n s.stopped w).sent
            (sym found' ∙ nothing)).1 in
        let unsent' : (take_turn c candidate n false w).sent ≡ [] = rw going at unsent in
        elim (tested d w.nonce positive) [
          | inl lucky ↦ cc (unsent', take_turn_met w lucky)
          | inr no_luck ↦
              go left reach no_luck
                (at' ∙ ap (λ b. some (take_turn c candidate n b w).worker) going)
        ]
      where
        go :
            (left : ℕ)
            → w.nonce + left * n ≡ k
            → Tested c candidate w.nonce false
            → get_elem? (turn_at c candidate n i s.workers s).workers i
              ≡ some (take_turn c candidate n false w).worker
            → (w' : Worker) × (m : ℕ) × (left ≡ suc m)
              × (get_elem? (turn_at c candidate n i s.workers s).workers i ≡ some w')
              × (w'.running ≡ true)
              × (w'.nonce + m * n ≡ k)
        go zero reach no_luck at' =
            let here : k ≡ w.nonce = grind arith in
            cc (no_luck, subst (λ x. Tested c candidate x true) here met)
        go (suc m) reach no_luck at' =
            let split : suc m * n ≡ n + m * n = grind arith in
            (
              record { nonce = w.nonce + n; tried = w.tried + 1; running = true },
              m,
              refl,
              at' ∙ ap some (take_turn_on w no_luck (omega arith)),
              refl,
              omega arith,
            )

    -- Worker `i` is running at a nonce from which `left` steps lead to `k`.
    found_after :
        (es : List Event) (s : Search) (w : Worker) (left : ℕ)
        → NotCancelled es
        → s.stopped ≡ false
        → get_elem? s.workers i ≡ some w
        → w.running ≡ true
        → w.nonce + left * n ≡ k
        → left < turns_of i es
        → (run c candidate n es s).found ≢ []
    unfolding run step
    found_after [] s w left calm going at running reach enough none_found = absurd (omega arith)
    found_after (cancel ∷ es) s w left calm going at running reach enough none_found = calm
    found_after (turn j ∷ es) s w left calm going at running reach enough none_found =
        let nothing = run_keeps es (turn_at c candidate n j s.workers s) none_found in
        let (before, stopped') = turn_at-found j s.workers s nothing in
        elim (Bool-cases (j == i)) [
          | inr other ↦
              found_after es (turn_at c candidate n j s.workers s) w left calm (stopped' ∙ going)
                (turn_at_other i j s.workers s other ∙ at) running reach (ground arith) none_found
          | inl own ↦
              let same = (==_iff j i).0 own in
              let nothing' =
                subst (λ x. (turn_at c candidate n x s.workers s).found ≡ []) same nothing in
              let (w', m, e, at', running', reach') =
                own_turn s w left going at running reach nothing' in
              let at'' =
                subst (λ x. get_elem? (turn_at c candidate n x s.workers s).workers i ≡ some w')
                  (sym same) at' in
              found_after es (turn_at c candidate n j s.workers s) w' m calm (stopped' ∙ going) at''
                running' reach' (ground (arith, e)) none_found
        ]

  start_from-at :
      (w m i : ℕ)
      → i < m
      → get_elem? (start_from w m) i ≡ some (record { nonce = w + i; tried = 0; running = true })
  unfolding start_from
  start_from-at w zero i h = absurd (omega arith)
  start_from-at w (suc m) zero h =
      ap (λ x. some (record { nonce = x; tried = 0; running = true })) (omega arith)
  start_from-at w (suc m) (suc i) h =
      start_from-at (suc w) m i (omega arith)
      ∙ ap (λ x. some (record { nonce = x; tried = 0; running = true })) (omega arith)

-- At a difficulty that is not negative, under any interleaving of `n` workers that nobody cancels:
-- if the nonce `k` meets the difficulty and the worker that `k` falls to, the one at index k % n, has
-- more than k / n turns, then a block has been found, by that worker or by another.
pub run_finds :
    (c : Crypto) (candidate : Block) (n d k : ℕ) (es : List Event)
    → 0 < n
    → candidate.difficulty ≡ pos d
    → k < 2 ^ 64
    → Tested c candidate k true
    → NotCancelled es
    → k / n < turns_of (k % n) es
    → (run c candidate n es (start n)).found ≢ []
unfolding start
run_finds c candidate n d k es some_worker positive small met calm enough =
    found_after c candidate n d k positive small met (k % n) es (start n)
      (record { nonce = 0 + k % n; tried = 0; running = true }) (k / n) calm refl
      (start_from-at c candidate n 0 n (k % n) (mod-lt k some_worker)) refl
      (let whole = div-add-mod' k n in omega arith) enough
