-- ===== src/Ledger/Refinement.antt =====
-- What internal/ledger/state.go promises to its callers: exact admission, ApplyAll as the abstract
-- transfers or nothing at all, the supply of coins, and the list of accounts.
use toy_blockchain.Prelude.{
  ℕ, ◌+◌, ◌≤◌, ◌≡◌, refl, ap, sym, ◌∙◌, ◌↔◌, List, [], ◌∷◌, false, Text, ◌⊎◌, inl, inr, arith,
  Bool-cases, ℤ, pos, negsuc, pos_part, ltb_ℤ, max_int64, ◌+64◌, ◌+ℤ◌, ◌-64◌, wrap64, ok, err,
}
use toy_blockchain.Go.Map.{Map, AllValues}
use toy_blockchain.Crypto.{Crypto}
use toy_blockchain.Ledger.Transaction.{Transaction, LedgerError, in_transaction, is_coinbase}
use toy_blockchain.Ledger.Signature.{validate}
use toy_blockchain.Ledger.State.{State, balance, can_apply, apply_all, add_balances, supply}
use toy_blockchain.Ledger.Balances.{
  IsSound, InRange, Fits, balance-Fits, can_apply-IsCovered, can_apply-eq-ok, room,
}
use toy_blockchain.Ledger.Moves.{coins, total, after}
use toy_blockchain.Ledger.Replay.{
  Accepted, run, accepted-IsSound, apply_all-cases, view, view-after, move, move_all, minted_all,
  coins-accepted, StopsAt,
}
use toy_blockchain.Ledger.Pool.{run-IsSound}

enough : (b a : ℤ) → Fits b → pos_part a ≤ pos_part b → ltb_ℤ b a ≡ false
enough b a f h = ground arith

Fits-room :
    (b a : ℤ) → Fits b → pos_part b + pos_part a ≤ max_int64 → ltb_ℤ (pos max_int64 -64 b) a ≡ false
Fits-room b a f h = ground (arith, room b)

pub admitted :
    (c : Crypto) (s : State) (tx : Transaction)
    → IsSound s
    → validate c tx ≡ ok tt
    → (is_coinbase tx ≡ false → pos_part tx.amount ≤ view s tx.from)
    → view s tx.to + pos_part tx.amount ≤ max_int64
    → can_apply c s tx ≡ ok tt
unfolding can_apply
admitted c s tx sound valid funded fitting =
    let fits = Fits-room (balance s tx.to) tx.amount (balance-Fits s tx.to sound) fitting in
    elim (Bool-cases (is_coinbase tx)) [
      | inl e ↦ ground (arith, valid, fits)
      | inr e ↦ ground (
        arith,
        valid,
        fits,
        enough (balance s tx.from) tx.amount (balance-Fits s tx.from sound) (funded e),
      )
    ]

module _ (c : Crypto) (s : State) (sound : IsSound s) where
  -- On a sound state `CanApply` returns nil exactly when the transaction is valid by itself, its
  -- sender, if it has one, holds the amount, and the recipient's balance stays within int64, on
  -- unbounded numbers.
  pub can_apply_exact :
      (tx : Transaction)
      → (can_apply c s tx ≡ ok tt) ↔ (
          (validate c tx ≡ ok tt)
          × (is_coinbase tx ≡ false → pos_part tx.amount ≤ view s tx.from)
          × (view s tx.to + pos_part tx.amount ≤ max_int64))
  can_apply_exact tx = (
    (λ h.
        let covered = can_apply-IsCovered c s tx sound h in
        ((can_apply-eq-ok c s tx h).0, covered.funded, covered.fitting)),
    (λ (valid, funded, fitting). admitted c s tx sound valid funded fitting),
  )

  run-view :
      (txs : List Transaction) (t : State)
      → IsSound t
      → Accepted c txs t
      → (g : Text → ℕ) → ((j : Text) → view t j ≡ g j)
      → (j : Text) → view (run txs t) j ≡ move_all txs g j
  run-view [] t h a g e j = e j
  run-view (tx ∷ txs) t h a g e j =
      run-view txs (after t tx) (accepted-IsSound c t tx h a.0) a.1 (move tx g)
        (λ i. ground (arith, view-after c t tx h a.0 i, e i, e tx.from, e tx.to)) j

  run-coins :
      (txs : List Transaction) (t : State)
      → IsSound t
      → Accepted c txs t
      → coins (run txs t) ≡ coins t + minted_all txs
  run-coins [] t h a = omega arith
  run-coins (tx ∷ txs) t h a = omega (
    arith,
    run-coins txs (after t tx) (accepted-IsSound c t tx h a.0) a.1,
    coins-accepted c t tx h a.0,
  )

  -- On a sound state `ApplyAll` either accepts every transaction and leaves a sound state, in
  -- which each balance is what the abstract transfers make of it and the coins have grown by what
  -- was minted; or it returns the first transaction that is refused, with its index and error, and
  -- the state is exactly the one before.
  pub apply_all_refines :
      (txs : List Transaction)
      → ((t : State) × (apply_all c txs s ≡ (ok tt, t))
          × IsSound t
          × ((j : Text) → view t j ≡ move_all txs (view s) j)
          × (coins t ≡ coins s + minted_all txs))
        ⊎ ((k : ℕ) × (tx : Transaction) × (e : LedgerError) × StopsAt c txs s k tx e
            × (apply_all c txs s ≡ (err (in_transaction k tx e), s)))
  apply_all_refines txs = elim (apply_all-cases c txs s sound) [
    | inl (a, r) ↦ inl (
      run txs s,
      r,
      run-IsSound c txs s sound a,
      run-view txs s sound a (view s) (λ j. refl),
      run-coins txs s sound a,
    )
    | inr stopped ↦ inr stopped
  ]

pub wrap_add : (n k : ℕ) → k ≤ max_int64 → wrap64 (pos n) +64 pos k ≡ wrap64 (pos (n + k))
unfolding ◌+64◌ ◌+ℤ◌ wrap64
wrap_add n k h = ground arith

add_balances-eq :
    (n : ℕ) (m : Map ℤ)
    → AllValues InRange m
    → add_balances (wrap64 (pos n)) m ≡ wrap64 (pos (n + total m))
unfolding add_balances
add_balances-eq n [] h = ap (λ k. wrap64 (pos k)) (omega arith)
add_balances-eq n ((a, pos k) ∷ m) h =
    rw (wrap_add n k h.0.1) (add_balances-eq (n + k) m h.1 ∙ ap (λ i. wrap64 (pos i)) (omega arith))
add_balances-eq n ((a, negsuc k) ∷ m) h = absurd (omega (arith, h.0))

wrapped_exactly : (n : ℕ) → (wrap64 (pos n) ≡ pos n) ↔ (n ≤ max_int64)
unfolding wrap64
wrapped_exactly n = ((λ h. ground arith), (λ h. ground arith))

pub wrapped_zero : wrap64 (pos 0) ≡ pos 0
unfolding wrap64
wrapped_zero = refl

pub supply-eq : (s : State) → IsSound s → supply s ≡ wrap64 (pos (coins s))
unfolding supply
supply-eq s h =
    ap (λ z. add_balances z s.balances) (sym wrapped_zero)
    ∙ add_balances-eq 0 s.balances h.in_range
    ∙ ap (λ n. wrap64 (pos n)) (omega arith)

-- On a sound state `Supply` is the number of coins reduced to int64, so it is that number exactly
-- as long as there are at most 2 ^ 63 - 1 coins.
pub supply_exact :
    (s : State)
    → IsSound s
    → (supply s ≡ wrap64 (pos (coins s))) × ((supply s ≡ pos (coins s)) ↔ (coins s ≤ max_int64))
supply_exact s h =
    let e = supply-eq s h in
    (
      e,
      (
        (λ p. (wrapped_exactly (coins s)).0 (sym e ∙ p)),
        (λ l. e ∙ (wrapped_exactly (coins s)).1 l),
      ),
    )
