-- ===== src/Miner/Search.antt =====
-- internal/miner/miner.go. The goroutines of MineWith are workers, and a run is a schedule: in
-- each event one worker makes one turn of its loop, or the caller cancels the context. Sending on
-- the channel and cancelling the others are one event. Wall-clock time is left out of the result.
use toy_blockchain.Prelude.{
  ℕ, zero, suc, ◌+◌, ◌%◌, ◌^◌, Bool, true, false, not, ◌&&◌, ◌||◌, Option, none, some, List, [],
  ◌∷◌, ◌++◌, ◌==◌, ltb, if◌then◌else◌, ℤ, pos, negsuc, Result, ok, err,
}
use toy_blockchain.Crypto.{Crypto}
use toy_blockchain.Block.Header.{Block, compute_hash, meets_difficulty}

abbrev pub cancel_check_interval : ℕ
cancel_check_interval = 4096

pub data MinerError : Type 0 where
  cancelled no_nonce crashed : MinerError

pub record MinerResult : Type 0 where
  pub block : Block
  pub hashes : ℕ
  pub workers : ℕ

-- One goroutine: the nonce that it tries next, how many it has tried, and whether it goes on.
pub record Worker : Type 0 where
  pub nonce : ℕ
  pub tried : ℕ
  pub running : Bool

-- The channel, oldest block first, the shared context and the counter of hashes. `crashed` is the
-- panic of a difficulty below zero.
pub record Search : Type 0 where
  pub workers : List Worker
  pub found : List Block
  pub stopped : Bool
  pub hashes : ℕ
  pub crashed : Bool

pub data Event : Type 0 where
  turn : ℕ → Event
  cancel : Event

-- `if workers < 1 { workers = 1 }`
unfoldable pub worker_count : ℤ → ℕ
worker_count (pos zero) = 1
worker_count (pos (suc n)) = suc n
worker_count (negsuc n) = 1

-- The workers from offset `w` on, `n` of them.
unfoldable pub start_from : ℕ → ℕ → List Worker
start_from w zero = []
start_from w (suc n) = record { nonce = w; tried = 0; running = true } ∷ start_from (suc w) n

unfoldable pub start : ℕ → Search
start n = record {
  workers = start_from 0 n;
  found = [];
  stopped = false;
  hashes = 0;
  crashed = false;
}

-- What one turn of a worker's loop does to the worker and to what the workers share.
pub record Turn : Type 0 where
  pub worker : Worker
  pub sent : List Block
  pub hashed : ℕ
  pub panicked : Bool

abbrev pub is_sent : List Block → Bool
is_sent [] = false
is_sent (b ∷ bs) = true

-- `wg.Wait` has returned.
unfoldable pub all_done : List Worker → Bool
all_done [] = true
all_done (w ∷ ws) = not w.running && all_done ws

-- What MineWith returns once all workers have stopped.
unfoldable pub outcome : ℕ → Search → Result MinerError MinerResult
outcome n s = if s.crashed then err crashed else elim s.found [
  | winner ∷ rest ↦ ok (record { block = winner; hashes = s.hashes; workers = n })
  | [] ↦ if s.stopped then err cancelled else err no_nonce
]

-- The block that one turn tries.
abbrev pub attempt : Crypto → Block → ℕ → Block
attempt c candidate nonce =
    let b = record candidate { nonce = nonce } in record b { hash = compute_hash c b }

module _ (c : Crypto) (candidate : Block) (stride : ℕ) where
  unfoldable pub take_turn : Bool → Worker → Turn
  take_turn stopping w =
      let tried = w.tried + 1 in
      let b = attempt c candidate w.nonce in
      let done : Worker = record { nonce = w.nonce; tried = tried; running = false } in
      let next = (w.nonce + stride) % 2 ^ 64 in
      elim (meets_difficulty b.hash b.difficulty) [
        | none ↦ record { worker = done; sent = []; hashed = tried; panicked = true }
        | some true ↦ record { worker = done; sent = b ∷ []; hashed = tried; panicked = false }
        | some false ↦
            if (tried % cancel_check_interval == 0) && stopping
            then record { worker = done; sent = []; hashed = tried; panicked = false }
            else if ltb next w.nonce
            then record { worker = done; sent = []; hashed = tried; panicked = false }
            else record {
              worker = record { nonce = next; tried = tried; running = true };
              sent = [];
              hashed = 0;
              panicked = false;
            }
      ]

  -- A turn of the worker at an index; one that has stopped, or is not there, does nothing.
  unfoldable pub turn_at : ℕ → List Worker → Search → Search
  turn_at i [] s = record s { workers = [] }
  turn_at zero (w ∷ ws) s =
      let t = take_turn s.stopped w in
      if w.running
      then record {
        workers = t.worker ∷ ws;
        found = s.found ++ t.sent;
        stopped = s.stopped || is_sent t.sent;
        hashes = s.hashes + t.hashed;
        crashed = s.crashed || t.panicked;
      }
      else record s { workers = w ∷ ws }
  turn_at (suc i) (w ∷ ws) s = let r = turn_at i ws s in record r { workers = w ∷ r.workers }

  unfoldable pub step : Event → Search → Search
  step (turn i) s = turn_at i s.workers s
  step cancel s = record s { stopped = true }

  unfoldable pub run : List Event → Search → Search
  run [] s = s
  run (e ∷ es) s = run es (step e s)

-- MineWith under a schedule; `none` while some worker is still searching.
unfoldable pub mine_with : Crypto → List Event → Block → ℤ → Option (Result MinerError MinerResult)
mine_with c schedule candidate workers =
    let n = worker_count workers in
    let s = run c candidate n schedule (start n) in
    if s.crashed || all_done s.workers then some (outcome n s) else none
