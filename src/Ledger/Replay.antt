-- ===== src/Ledger/Replay.antt =====
-- Apply and ApplyAll of internal/ledger/state.go against an abstract ledger: holdings are a
-- function from addresses to unbounded numbers, and a transaction moves its amount.
use toy_blockchain.Prelude.{
  ℕ, suc, ◌+◌, ◌-◌, ◌≡◌, refl, ap, ◌∙◌, List, [], ◌∷◌, ⊤, Text, text_eq, text_eq_iff, get_elem?,
  take, some, if◌then◌else◌, arith, Result-cases, inl, inr, ◌⊎◌, ℤ, pos_part, Result, ok, err,
}
use toy_blockchain.Go.Map.{Map, NoDup, insert, erase_absent}
use toy_blockchain.Crypto.{Crypto}
use toy_blockchain.Ledger.Transaction.{Transaction, LedgerError, in_transaction, is_coinbase}
use toy_blockchain.Ledger.State.{
  State, balance, copy_entries, clone, can_apply, apply, apply_from, apply_all,
}
use toy_blockchain.Ledger.Balances.{IsSound, can_apply-IsCovered}
use toy_blockchain.Ledger.Moves.{coins, after, after-IsSound, balance-after, coins-after}

abbrev pub Holdings : Type 0
Holdings = Text → ℕ

abbrev pub view : State → Holdings
view s j = pos_part (balance s j)

-- The coins that a transaction creates.
abbrev pub minted : Transaction → ℕ
minted tx = if is_coinbase tx then pos_part tx.amount else 0

abbrev pub minted_all : List Transaction → ℕ
minted_all [] = 0
minted_all (tx ∷ txs) = minted tx + minted_all txs

-- The abstract transfer: the amount leaves the sender, unless it is minted, and reaches the
-- recipient.
abbrev pub move : Transaction → Holdings → Holdings
move tx h j =
    let rest =
      if is_coinbase tx then h j else if text_eq tx.from j then h j - pos_part tx.amount else h j in
    if text_eq tx.to j then rest + pos_part tx.amount else rest

abbrev pub move_all : List Transaction → Holdings → Holdings
move_all [] h = h
move_all (tx ∷ txs) h = move_all txs (move tx h)

-- The states that a list of accepted transactions goes through, and its last.
abbrev pub run : List Transaction → State → State
run [] s = s
run (tx ∷ txs) s = run txs (after s tx)

abbrev pub Accepted : Crypto → List Transaction → State → Type 0
Accepted c [] s = ⊤
Accepted c (tx ∷ txs) s = (can_apply c s tx ≡ ok tt) × Accepted c txs (after s tx)

copy_entries_id : (m : Map ℤ) → NoDup m → copy_entries m ≡ m
unfolding copy_entries insert
copy_entries_id [] h = refl
copy_entries_id ((k, v) ∷ m) h = rw (copy_entries_id m h.1, erase_absent k m h.0)

-- A clone has the same entries.
pub clone_id : (s : State) → IsSound s → clone s ≡ s
unfolding clone
clone_id s h = ap (λ m. record { balances = m }) (copy_entries_id s.balances h.distinct)

module _ (c : Crypto) where
  pub apply-ok :
      (s : State) (tx : Transaction) → can_apply c s tx ≡ ok tt → apply c tx s ≡ (ok tt, after s tx)
  unfolding apply after
  apply-ok s tx h = rw (h, apply)

  pub apply-err :
      (s : State) (tx : Transaction) (e : LedgerError)
      → can_apply c s tx ≡ err e
      → apply c tx s ≡ (err e, s)
  unfolding apply after
  apply-err s tx e h = rw (h, apply)

  pub accepted-IsSound :
      (s : State) (tx : Transaction) → IsSound s → can_apply c s tx ≡ ok tt → IsSound (after s tx)
  accepted-IsSound s tx h ok_tx = after-IsSound s tx h (can_apply-IsCovered c s tx h ok_tx)

  pub view-after :
      (s : State) (tx : Transaction)
      → IsSound s
      → can_apply c s tx ≡ ok tt
      → (j : Text) → view (after s tx) j ≡ move tx (view s) j
  view-after s tx h ok_tx j =
      let covered = can_apply-IsCovered c s tx h ok_tx in
      ground (
        arith,
        balance-after s tx h covered j,
        covered.formed.distinct,
        text_eq_iff tx.to j,
        text_eq_iff tx.from j,
        text_eq_iff tx.from tx.to,
      )

  pub coins-accepted :
      (s : State) (tx : Transaction)
      → IsSound s
      → can_apply c s tx ≡ ok tt
      → coins (after s tx) ≡ coins s + minted tx
  coins-accepted s tx h ok_tx = coins-after s tx h (can_apply-IsCovered c s tx h ok_tx)

  apply_from_step :
      (i : ℕ) (tx : Transaction) (txs : List Transaction) (s : State)
      → can_apply c s tx ≡ ok tt
      → apply_from c i (tx ∷ txs) s ≡ apply_from c (suc i) txs (after s tx)
  unfolding apply_from
  apply_from_step i tx txs s h = ground (arith, apply-ok s tx h)

  apply_from_stop :
      (i : ℕ) (tx : Transaction) (txs : List Transaction) (s : State) (e : LedgerError)
      → can_apply c s tx ≡ err e
      → (apply_from c i (tx ∷ txs) s).0 ≡ err (in_transaction i tx e)
  unfolding apply_from
  apply_from_stop i tx txs s e h = ground (arith, apply-err s tx e h)

  -- The loop over accepted transactions ends in the state of `run`, whatever index it counts from.
  apply_from-Accepted :
      (i : ℕ) (txs : List Transaction) (s : State)
      → Accepted c txs s
      → apply_from c i txs s ≡ (ok tt, run txs s)
  unfolding apply_from
  apply_from-Accepted i [] s h = refl
  apply_from-Accepted i (tx ∷ txs) s h =
      apply_from_step i tx txs s h.0 ∙ apply_from-Accepted (suc i) txs (after s tx) h.1

  -- Where a list of transactions stops being accepted: the index, the transaction, its error.
  pub record StopsAt (txs : List Transaction) (s : State) (i : ℕ) (tx : Transaction)
      (e : LedgerError) : Type 0 where
    pub there : get_elem? txs i ≡ some tx
    pub before : Accepted c (take i txs) s
    pub refused : can_apply c (run (take i txs) s) tx ≡ err e

  at_index :
      {r : Result LedgerError ⊤} (i k : ℕ) (tx : Transaction) (e : LedgerError)
      → r ≡ err (in_transaction i tx e)
      → i ≡ k
      → r ≡ err (in_transaction k tx e)
  at_index i k tx e h same = h ∙ ap (λ n. err (in_transaction n tx e)) same

  -- Either all transactions are accepted, or the loop names the first that is not.
  apply_from-cases :
      (i : ℕ) (txs : List Transaction) (s : State)
      → Accepted c txs s
        ⊎ ((k : ℕ) × (tx : Transaction) × (e : LedgerError) × StopsAt txs s k tx e
            × ((apply_from c i txs s).0 ≡ err (in_transaction (i + k) tx e)))
  unfolding apply_from
  apply_from-cases i [] s = inl tt
  apply_from-cases i (tx ∷ txs) s = elim (Result-cases (can_apply c s tx)) [
    | inl (u, h) ↦ elim (apply_from-cases (suc i) txs (after s tx)) [
      | inl rest ↦ inl (h, rest)
      | inr (k, tx', e, stop, r) ↦ inr (
        suc k,
        tx',
        e,
        record { there = stop.there; before = (h, stop.before); refused = stop.refused },
        at_index (suc i + k) (i + suc k) tx' e (ap (λ p. p.0) (apply_from_step i tx txs s h) ∙ r)
            (omega arith),
      )
    ]
    | inr (e, h) ↦ inr (
      0,
      tx,
      e,
      record { there = refl; before = tt; refused = h },
      at_index i (i + 0) tx e (apply_from_stop i tx txs s e h) (omega arith),
    )
  ]

  module _ (txs : List Transaction) (s : State) (sound : IsSound s) where
    -- `ApplyAll` returns nil exactly when every transaction is accepted in turn.
    pub apply_all-ok : Accepted c txs s → apply_all c txs s ≡ (ok tt, run txs s)
    unfolding apply_all
    apply_all-ok h = ground (arith, clone_id s sound, apply_from-Accepted 0 txs s h)

    pub apply_all-cases :
        (Accepted c txs s × (apply_all c txs s ≡ (ok tt, run txs s)))
        ⊎ ((k : ℕ) × (tx : Transaction) × (e : LedgerError) × StopsAt txs s k tx e
            × (apply_all c txs s ≡ (err (in_transaction k tx e), s)))
    unfolding apply_all
    apply_all-cases = elim (apply_from-cases 0 txs s) [
      | inl h ↦ inl (h, apply_all-ok h)
      | inr (k, tx, e, stop, r) ↦ inr (
        k,
        tx,
        e,
        stop,
        ground (arith, clone_id s sound, at_index (0 + k) k tx e r (omega arith)),
      )
    ]
