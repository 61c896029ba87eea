-- ===== src/Ledger/Mempool.antt =====
-- internal/ledger/mempool.go. A negative count panics in `m.pending[:n]`, which is `none` here.
use toy_blockchain.Prelude.{
  ℕ, Option, none, some, List, [], ◌∷◌, ◌++◌, ⊤, length, take, drop, ltb, if◌then◌else◌, ℤ, pos,
  negsuc, Result, ok, err,
}
use toy_blockchain.Crypto.{Crypto}
use toy_blockchain.Ledger.Transaction.{Transaction, LedgerError, stale_pool}
use toy_blockchain.Ledger.State.{State, clone, can_apply, apply_all}

pub record Mempool : Type 0 where
  pub pending : List Transaction

unfoldable pub new_mempool : List Transaction → Mempool
new_mempool restored = record { pending = restored }

unfoldable pub len : Mempool → ℕ
len m = length m.pending

-- `n` cut down to the length of the queue.
unfoldable pub at_most : ℕ → ℕ → ℕ
at_most n len = if ltb len n then len else n

unfoldable pub peek : ℤ → Mempool → Option (List Transaction)
peek (pos n) m = some (take (at_most n (length m.pending)) m.pending)
peek (negsuc n) m = none

unfoldable pub remove : ℕ → Mempool → Mempool
remove n m = record m { pending = drop (at_most n (length m.pending)) m.pending }

module _ (c : Crypto) where
  unfoldable pub add : Transaction → State → Mempool → Result LedgerError ⊤ × Mempool
  add tx confirmed m =
      let (r, projected) = apply_all c m.pending (clone confirmed) in
      elim r [
        | err e ↦ (err (stale_pool e), m)
        | ok _ ↦ elim (can_apply c projected tx) [
          | err e ↦ (err e, m)
          | ok _ ↦ (ok tt, record m { pending = m.pending ++ tx ∷ [] })
        ]
      ]
