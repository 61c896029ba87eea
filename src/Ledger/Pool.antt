-- ===== src/Ledger/Pool.antt =====
-- internal/ledger/mempool.go against the state: what the queue promises, and what mining leaves of
-- it.
use toy_blockchain.Prelude.{
  ℕ, ◌≡◌, refl, ap, List, [], ◌∷◌, ◌++◌, take, length, some, ◌⊎◌, inl, inr, arith, if◌then◌else◌,
  min, ok, err, Result-cases, take-append-drop, pos, length-take, Text, pos_part, ◌+◌, text_eq,
  text_eq_iff,
}
use toy_blockchain.Crypto.{Crypto}
use toy_blockchain.Ledger.Transaction.{
  Transaction, LedgerError, stale_pool, in_transaction, is_coinbase,
}
use toy_blockchain.Ledger.State.{State, can_apply, apply_all}
use toy_blockchain.Ledger.Mempool.{Mempool, at_most, peek, remove, add}
use toy_blockchain.Ledger.Balances.{IsSound, can_apply-IsCovered}
use toy_blockchain.Ledger.Moves.{after}
use toy_blockchain.Ledger.Replay.{
  Accepted, run, clone_id, accepted-IsSound, apply_all-cases, apply_all-ok, view, view-after,
}

pub run-append : (xs ys : List Transaction) (s : State) → run (xs ++ ys) s ≡ run ys (run xs s)
run-append [] ys s = refl
run-append (x ∷ xs) ys s = run-append xs ys _

module _ (c : Crypto) where
  -- A list is accepted exactly when its first part is, and then its second part after it.
  pub Accepted-append :
      (xs ys : List Transaction) (s : State)
      → Accepted c xs s
      → Accepted c ys (run xs s)
      → Accepted c (xs ++ ys) s
  Accepted-append [] ys s h k = k
  Accepted-append (x ∷ xs) ys s h k = (h.0, Accepted-append xs ys _ h.1 k)

  pub Accepted-split :
      (xs ys : List Transaction) (s : State)
      → Accepted c (xs ++ ys) s
      → Accepted c xs s × Accepted c ys (run xs s)
  Accepted-split [] ys s h = (tt, h)
  Accepted-split (x ∷ xs) ys s h = let (a, b) = Accepted-split xs ys _ h.1 in ((h.0, a), b)

  pub run-IsSound :
      (xs : List Transaction) (s : State) → IsSound s → Accepted c xs s → IsSound (run xs s)
  run-IsSound [] s h a = h
  run-IsSound (x ∷ xs) s h a = run-IsSound xs _ (accepted-IsSound c s x h a.0) a.1

  -- The pool fits a state: its transactions are accepted one after the other.
  abbrev pub IsQueued : Mempool → State → Type 0
  IsQueued m s = Accepted c m.pending s

  Accepted-singleton :
      (xs : List Transaction) (tx : Transaction) (s : State)
      → Accepted c xs s
      → can_apply c (run xs s) tx ≡ ok tt
      → Accepted c (xs ++ tx ∷ []) s
  Accepted-singleton xs tx s h k = Accepted-append xs (tx ∷ []) s h (k, tt)

  module _ (tx : Transaction) (s : State) (m : Mempool) (sound : IsSound s) where
    -- What `Add` answers, from the answers of `ApplyAll` and `CanApply` on the projected state.
    add_stale :
        (e : LedgerError)
        → apply_all c m.pending s ≡ (err e, s)
        → add c tx s m ≡ (err (stale_pool e), m)
    unfolding add
    add_stale e h = ground (arith, clone_id s sound, h)

    add_refused :
        (e : LedgerError)
        → apply_all c m.pending s ≡ (ok tt, run m.pending s)
        → can_apply c (run m.pending s) tx ≡ err e
        → add c tx s m ≡ (err e, m)
    unfolding add
    add_refused e h k = ground (arith, clone_id s sound, h, k)

    add_accepted :
        apply_all c m.pending s ≡ (ok tt, run m.pending s)
        → can_apply c (run m.pending s) tx ≡ ok tt
        → add c tx s m ≡ (ok tt, record m { pending = m.pending ++ tx ∷ [] })
    unfolding add
    add_accepted h k = ground (arith, clone_id s sound, h, k)

    -- On a sound confirmed state `Add` returns nil and appends exactly when the whole queue with
    -- the new transaction at its end is accepted on that state; otherwise it returns an error and
    -- changes nothing.
    pub add_exact :
        (Accepted c (m.pending ++ tx ∷ []) s
          × (add c tx s m ≡ (ok tt, record m { pending = m.pending ++ tx ∷ [] })))
        ⊎ ((e : LedgerError) × (add c tx s m ≡ (err e, m))
            × ¬ (Accepted c (m.pending ++ tx ∷ []) s))
    add_exact = elim (apply_all-cases c m.pending s sound) [
      | inl (queued, r) ↦ elim (Result-cases (can_apply c (run m.pending s) tx)) [
        | inl (u, k) ↦ inl (Accepted-singleton m.pending tx s queued k, add_accepted r k)
        | inr (e, k) ↦
            inr (e, add_refused e r k, λ a. cc (k, (Accepted-split m.pending (tx ∷ []) s a).1.0))
      ]
      | inr (i, tx', e, stop, r) ↦ inr (
        stale_pool (in_transaction i tx' e),
        add_stale (in_transaction i tx' e) r,
        λ a. cc (r, apply_all-ok c m.pending s sound (Accepted-split m.pending (tx ∷ []) s a).0),
      )
    ]

at_most-eq-min : (n len : ℕ) → at_most n len ≡ min n len
unfolding at_most
at_most-eq-min n len = ground arith

-- `Peek(n)` hands out the first transactions, `n` of them or all, and `Remove` of as many leaves
-- exactly the others.
pub peek-remove :
    (n : ℕ) (m : Mempool) (q : List Transaction)
    → peek (pos n) m ≡ some q
    → (q ++ (remove (length q) m).pending ≡ m.pending) × (length q ≡ min n (length m.pending))
unfolding peek remove
peek-remove n m q h =
    let same : q ≡ take (at_most n (length m.pending)) m.pending = cc in
    let size : length q ≡ at_most n (length m.pending) = omega (
      arith,
      ap (λ l. length {A = Transaction} l) same,
      length-take (at_most n (length m.pending)) m.pending,
      at_most-eq-min n (length m.pending),
    ) in
    let kept : at_most (length q) (length m.pending) ≡ at_most n (length m.pending) = omega (
      arith,
      size,
      at_most-eq-min n (length m.pending),
      at_most-eq-min (length q) (length m.pending),
    ) in
    (
      rw kept (rw same (take-append-drop (at_most n (length m.pending)) m.pending)),
      omega (arith, size, at_most-eq-min n (length m.pending)),
    )

-- What an account pays, and what it is paid, by a list of transactions.
abbrev pub spent : Text → List Transaction → ℕ
spent a [] = 0
spent a (tx ∷ txs) =
    (if is_coinbase tx then 0 else if text_eq tx.from a then pos_part tx.amount else 0)
    + spent a txs

abbrev pub received : Text → List Transaction → ℕ
received a [] = 0
received a (tx ∷ txs) = (if text_eq tx.to a then pos_part tx.amount else 0) + received a txs

module _ (c : Crypto) where
  -- In a list that is accepted on a sound state, every account has paid for what it spends: what
  -- it spends and what it is left with are what it held and what it received. So no two queued
  -- transfers spend the same coins.
  pub Accepted-balance :
      (a : Text) (txs : List Transaction) (s : State)
      → IsSound s
      → Accepted c txs s
      → view (run txs s) a + spent a txs ≡ view s a + received a txs
  Accepted-balance a [] s h k = refl
  Accepted-balance a (tx ∷ txs) s h k =
      let covered = can_apply-IsCovered c s tx h k.0 in
      ground (
        arith,
        Accepted-balance a txs (after s tx) (accepted-IsSound c s tx h k.0) k.1,
        view-after c s tx h k.0 a,
        covered.formed.distinct,
        covered.funded,
        text_eq_iff tx.from a,
        text_eq_iff tx.to a,
        text_eq_iff tx.from tx.to,
      )
