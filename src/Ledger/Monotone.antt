-- ===== src/Ledger/Monotone.antt =====
-- More coins do no harm: what internal/ledger/state.go accepts on some balances it accepts on larger
-- ones, as long as there are not so many coins that a balance leaves int64.
use toy_blockchain.Prelude.{
  ◌+◌, ◌≤◌, ◌≡◌, List, [], ◌∷◌, Text, text_eq, true, false, Bool-cases, inl, inr, arith, ℤ, pos,
  pos_part, max_int64, ok,
}
use toy_blockchain.Go.Map.{Map, get, erase, NoDup, erase-NoDup}
use toy_blockchain.Crypto.{Crypto}
use toy_blockchain.Ledger.Transaction.{Transaction, is_coinbase}
use toy_blockchain.Ledger.Signature.{validate}
use toy_blockchain.Ledger.State.{State, can_apply}
use toy_blockchain.Ledger.Balances.{IsSound, get-erase, validate-IsFormed}
use toy_blockchain.Ledger.Moves.{coins, total, total-erase, after}
use toy_blockchain.Ledger.Replay.{
  Accepted, accepted-IsSound, view, view-after, minted, minted_all, coins-accepted,
}
use toy_blockchain.Ledger.Refinement.{can_apply_exact, admitted}

-- No account holds more than all do, and neither do two.
entry-le-total : (k : Text) (m : Map ℤ) → NoDup m → pos_part (get (pos 0) k m) ≤ total m
entry-le-total k m h = omega (arith, total-erase k m h)

entries-le-total :
    (j k : Text) (m : Map ℤ)
    → NoDup m
    → text_eq j k ≡ false
    → pos_part (get (pos 0) j m) + pos_part (get (pos 0) k m) ≤ total m
entries-le-total j k m h other =
    ground
      (arith, total-erase j m h, get-erase j k m, entry-le-total k (erase j m) (erase-NoDup j m h))

module _ (c : Crypto) where
  accepted_above :
      (tx : Transaction) (s t : State)
      → IsSound s
      → IsSound t
      → ((j : Text) → view s j ≤ view t j)
      → coins t + minted tx ≤ max_int64
      → can_apply c s tx ≡ ok tt
      → can_apply c t tx ≡ ok tt
  accepted_above tx s t hs ht above room h =
      let (valid, funded, fits) = (can_apply_exact c s hs tx).0 h in
      admitted c t tx ht valid (λ e. omega (arith, funded e, above tx.from))
        (elim (Bool-cases (is_coinbase tx)) [
          | inl e ↦ ground (arith, e, entry-le-total tx.to t.balances ht.distinct)
          | inr e ↦ ground (
            arith,
            e,
            funded e,
            above tx.from,
            entries-le-total tx.from tx.to t.balances ht.distinct
                ((validate-IsFormed c tx valid).distinct e),
          )
        ])

  -- A list that is accepted on some balances is accepted on larger ones.
  pub Accepted-above :
      (txs : List Transaction) (s t : State)
      → IsSound s
      → IsSound t
      → ((j : Text) → view s j ≤ view t j)
      → coins t + minted_all txs ≤ max_int64
      → Accepted c txs s
      → Accepted c txs t
  Accepted-above [] s t hs ht above room a = tt
  Accepted-above (tx ∷ txs) s t hs ht above room a =
      let ok_tx = accepted_above tx s t hs ht above (omega arith) a.0 in
      (
        ok_tx,
        Accepted-above txs (after s tx) (after t tx) (accepted-IsSound c s tx hs a.0)
            (accepted-IsSound c t tx ht ok_tx)
            (λ j. ground (
              arith,
              view-after c s tx hs a.0 j,
              view-after c t tx ht ok_tx j,
              above j,
              above tx.to,
              above tx.from,
            ))
            (omega (arith, coins-accepted c t tx ht ok_tx)) a.1,
      )

  -- Coins that are minted are accepted where there is room for them, and leave no account with less.
  pub mint_accepted :
      (tx : Transaction) (s : State)
      → IsSound s
      → validate c tx ≡ ok tt
      → is_coinbase tx ≡ true
      → coins s + pos_part tx.amount ≤ max_int64
      → (can_apply c s tx ≡ ok tt)
        × ((j : Text) → view s j ≤ view (after s tx) j)
        × (coins (after s tx) ≡ coins s + pos_part tx.amount)
  mint_accepted tx s h valid mints room =
      let ok_tx : can_apply c s tx ≡ ok tt =
        admitted c s tx h valid (λ e. cc (mints, e))
          (omega (arith, entry-le-total tx.to s.balances h.distinct)) in
      (
        ok_tx,
        (λ j. ground (arith, view-after c s tx h ok_tx j, mints)),
        ground (arith, coins-accepted c s tx h ok_tx, mints),
      )
