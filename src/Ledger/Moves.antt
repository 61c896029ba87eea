-- ===== src/Ledger/Moves.antt =====
-- What Apply of internal/ledger/state.go does to the accounts: both sides of a transfer, the
-- invariant, every balance, and the number of coins.
use toy_blockchain.Prelude.{
  ℕ, ◌+◌, ◌-◌, ◌≤◌, ◌<◌, ◌≡◌, refl, Bool, true, false, [], ◌∷◌, Text, text_eq, text_eq_iff,
  text_eq_refl, if◌then◌else◌, leb, arith, Bool-cases, inl, inr, ℤ, pos, negsuc, pos_part,
  max_int64, ◌+64◌, ◌-64◌, ap,
}
use toy_blockchain.Go.Map.{
  Map, get, lookup, insert, erase, NoDup, AllValues, erase-NoDup, insert-NoDup, erase-AllValues,
  erase_absent, erase-insert_self,
}
use toy_blockchain.Ledger.Transaction.{Transaction, is_coinbase}
use toy_blockchain.Ledger.State.{State, balance, debit, credit}
use toy_blockchain.Ledger.Balances.{
  InRange, IsSound, Fits, get-insert, get-erase, balance-Fits, plus-Fits, minus-Fits, IsCovered,
}

-- The number of coins that the entries hold, without wrap-around.
abbrev pub total : Map ℤ → ℕ
total [] = 0
total ((addr, bal) ∷ m) = pos_part bal + total m

abbrev pub coins : State → ℕ
coins s = total s.balances

pub total-erase :
    (k : Text) (m : Map ℤ) → NoDup m → total (erase k m) + pos_part (get (pos 0) k m) ≡ total m
unfolding erase get lookup
total-erase k [] h = refl
total-erase k ((j, v) ∷ m) h =
    ground (arith, total-erase k m h.1, erase_absent k m, text_eq_iff j k)

total-insert :
    (k : Text) (v : ℤ) (m : Map ℤ)
    → NoDup m
    → total (insert k v m) + pos_part (get (pos 0) k m) ≡ total m + pos_part v
unfolding insert
total-insert k v m h = omega (arith, total-erase k m h)

insert-AllValues :
    (k : Text) (v : ℤ) (m : Map ℤ)
    → InRange v
    → AllValues InRange m
    → AllValues InRange (insert k v m)
unfolding insert
insert-AllValues k v m r h = (r, erase-AllValues InRange k m h)

-- The amount of a well-formed transaction, as a number.
amount-eq-pos : (a : ℤ) → 0 < pos_part a → a ≡ pos (pos_part a)
amount-eq-pos (pos n) h = refl
amount-eq-pos (negsuc n) h = absurd (omega arith)

Fits-pos : (a : ℤ) (k : ℕ) → Fits a → pos_part a - k ≤ max_int64
Fits-pos (pos n) k h = omega arith
Fits-pos (negsuc n) k h = absurd (omega arith)

-- The state that `Apply` leaves when it accepts the transaction.
unfoldable pub after : State → Transaction → State
after s tx = record { balances = credit tx (debit tx s.balances) }

module _ (s : State) (tx : Transaction) (sound : IsSound s) (covered : IsCovered s tx) where
  -- The amount, and what the sender holds, as numbers.
  abbrev paid : ℕ
  paid = pos_part tx.amount

  abbrev held : ℕ
  held = pos_part (balance s tx.from)

  abbrev left : Map ℤ
  left = insert tx.from (pos (held - paid)) s.balances

  left_over : is_coinbase tx ≡ false → balance s tx.from -64 tx.amount ≡ pos (held - paid)
  left_over e =
      rw (amount-eq-pos tx.amount covered.formed.positive)
        (minus-Fits (balance s tx.from) paid (balance-Fits s tx.from sound) (covered.funded e))

  debit_coinbase : is_coinbase tx ≡ true → debit tx s.balances ≡ s.balances
  unfolding debit
  debit_coinbase e = ground arith

  debit-eq :
      is_coinbase tx ≡ false
      → debit tx s.balances ≡ (if leb held paid then erase tx.from left else left)
  unfolding debit
  debit-eq e = ground (
    arith,
    left_over e,
    get-insert tx.from tx.from (pos (held - paid)) s.balances,
    text_eq_refl tx.from,
  )

  left-IsSound :
      (b : Bool)
      → leb held paid ≡ b
      → IsSound (record { balances = if b then erase tx.from left else left })
  left-IsSound true e = record {
    distinct =
        erase-NoDup tx.from left
          (insert-NoDup tx.from (pos (held - paid)) s.balances sound.distinct);
    in_range = rw (erase-insert_self tx.from (pos (held - paid)) s.balances) (
        erase-AllValues InRange tx.from (erase tx.from s.balances)
          (erase-AllValues InRange tx.from s.balances sound.in_range));
  }
  left-IsSound false e = record {
    distinct = insert-NoDup tx.from (pos (held - paid)) s.balances sound.distinct;
    in_range =
        insert-AllValues tx.from (pos (held - paid)) s.balances
          (ground arith, Fits-pos (balance s tx.from) paid (balance-Fits s tx.from sound))
          sound.in_range;
  }

  -- The two sides keep the invariant.
  debit-IsSound : IsSound (record { balances = debit tx s.balances })
  debit-IsSound = elim (Bool-cases (is_coinbase tx)) [
    | inl e ↦ rw (debit_coinbase e) sound
    | inr e ↦ rw (debit-eq e) (left-IsSound (leb held paid) refl)
  ]

  debit-get :
      (j : Text)
      → get (pos 0) j (debit tx s.balances) ≡ (
          if is_coinbase tx
          then balance s j
          else if text_eq tx.from j
          then pos (held - paid)
          else balance s j)
  debit-get j = elim (Bool-cases (is_coinbase tx)) [
    | inl e ↦ rw e (ap (get (pos 0) j) (debit_coinbase e))
    | inr e ↦ ground (
      arith,
      debit-eq e,
      get-insert tx.from j (pos (held - paid)) s.balances,
      get-erase tx.from j left,
    )
  ]

  total-debit : total (debit tx s.balances) + (if is_coinbase tx then 0 else paid) ≡ coins s
  total-debit = elim (Bool-cases (is_coinbase tx)) [
    | inl e ↦ rw (e, debit_coinbase e) (omega arith)
    | inr e ↦ ground (
      arith,
      debit-eq e,
      covered.funded e,
      total-insert tx.from (pos (held - paid)) s.balances sound.distinct,
      total-erase tx.from left (insert-NoDup tx.from (pos (held - paid)) s.balances sound.distinct),
      get-insert tx.from tx.from (pos (held - paid)) s.balances,
      text_eq_refl tx.from,
    )
  ]

  -- The recipient is not the sender, so the debit has left its balance alone.
  debit-get_to : get (pos 0) tx.to (debit tx s.balances) ≡ balance s tx.to
  debit-get_to = elim (Bool-cases (is_coinbase tx)) [
    | inl e ↦ ap (get (pos 0) tx.to) (debit_coinbase e)
    | inr e ↦ ground (arith, debit-get tx.to, covered.formed.distinct e)
  ]

  credit-value :
      get (pos 0) tx.to (debit tx s.balances) +64 tx.amount
      ≡ pos (pos_part (balance s tx.to) + paid)
  credit-value =
      rw (debit-get_to, amount-eq-pos tx.amount covered.formed.positive)
        (plus-Fits (balance s tx.to) paid (balance-Fits s tx.to sound) covered.fitting)

  after-eq : after s tx ≡ record {
    balances = insert tx.to (pos (pos_part (balance s tx.to) + paid)) (debit tx s.balances);
  }
  unfolding after credit
  after-eq = rw credit-value

  pub after-IsSound : IsSound (after s tx)
  after-IsSound = rw after-eq (record {
    distinct =
        insert-NoDup tx.to (pos (pos_part (balance s tx.to) + paid)) (debit tx s.balances)
          debit-IsSound.distinct;
    in_range =
        insert-AllValues tx.to (pos (pos_part (balance s tx.to) + paid)) (debit tx s.balances)
          (omega (arith, covered.formed.positive), covered.fitting) debit-IsSound.in_range;
  })

  -- Every balance afterwards, on numbers.
  pub balance-after :
      (j : Text)
      → balance (after s tx) j ≡ (
          if text_eq tx.to j
          then pos (pos_part (balance s tx.to) + paid)
          else if is_coinbase tx
          then balance s j
          else if text_eq tx.from j
          then pos (held - paid)
          else balance s j)
  balance-after j = rw after-eq (
      ground (
        arith,
        get-insert tx.to j (pos (pos_part (balance s tx.to) + paid)) (debit tx s.balances),
        debit-get j,
      ))

  pub coins-after : coins (after s tx) ≡ coins s + (if is_coinbase tx then paid else 0)
  coins-after = rw after-eq (
      ground (
        arith,
        total-insert tx.to (pos (pos_part (balance s tx.to) + paid)) (debit tx s.balances)
            debit-IsSound.distinct,
        debit-get_to,
        total-debit,
      ))
