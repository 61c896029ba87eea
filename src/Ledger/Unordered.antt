-- ===== src/Ledger/Unordered.antt =====
-- internal/ledger/state.go on maps whose entries stand in another order. Go does not say in which
-- order it walks a map; Accounts, Supply and Clone walk one.
use mathlib.Core.Path.{subst}
use toy_blockchain.Prelude.{
  ℕ, suc, ◌≡◌, refl, sym, ap, ◌∙◌, none, some, List, [], ◌∷◌, Text, text_eq, if◌then◌else◌, arith,
  ℤ, pos, ◌+64◌, ◌-64◌, wrap64, inl, inr, Result-cases,
}
use toy_blockchain.Crypto.{Crypto}
use toy_blockchain.Go.Map.{Map, lookup, get, erase, insert, lookup-insert, lookup-erase}
use toy_blockchain.Ledger.Transaction.{Transaction}
use toy_blockchain.Ledger.State.{
  State, accounts, supply, debit, credit, can_apply, apply, apply_from, apply_all, clone,
}
use toy_blockchain.Ledger.Balances.{IsSound}
use toy_blockchain.Ledger.Moves.{coins}
use toy_blockchain.Ledger.Refinement.{supply-eq, apply_all_refines}
use toy_blockchain.Ledger.Replay.{clone_id}
use toy_blockchain.Ledger.Listing.{accounts_exact, listed, listed-accounts_of}
use toy_blockchain.Ledger.Unique.{listing_unique}

-- Two states have the same entries, in whatever order.
abbrev pub SameEntries : State → State → Type 0
SameEntries s s' = (j : Text) → lookup j s.balances ≡ lookup j s'.balances

-- The order of the entries shows in neither Accounts nor Supply.
pub accounts_unordered :
    (s s' : State) → IsSound s → IsSound s' → SameEntries s s' → accounts s ≡ accounts s'
accounts_unordered s s' h h' same =
    let (up, shown) = accounts_exact s h in
    let (up', shown') = accounts_exact s' h' in
    listing_unique (accounts s) (accounts s') up up' (λ j. shown j ∙ same j ∙ sym (shown' j))

pub supply_unordered :
    (s s' : State) → IsSound s → IsSound s' → SameEntries s s' → supply s ≡ supply s'
unfolding accounts
supply_unordered s s' h h' same =
    let coins_same : coins s ≡ coins s' =
      sym (listed-accounts_of s.balances)
      ∙ ap listed (accounts_unordered s s' h h' same)
      ∙ listed-accounts_of s'.balances in
    supply-eq s h ∙ ap (λ n. wrap64 (pos n)) coins_same ∙ sym (supply-eq s' h')

get_same : (z : ℤ) (j : Text) (m m' : Map ℤ) → lookup j m ≡ lookup j m' → get z j m ≡ get z j m'
unfolding get
get_same z j m m' e = rw (e, get) refl

insert_same :
    (k : Text) (v v' : ℤ) (m m' : Map ℤ)
    → v ≡ v'
    → ((j : Text) → lookup j m ≡ lookup j m')
    → (j : Text) → lookup j (insert k v m) ≡ lookup j (insert k v' m')
insert_same k v v' m m' e same j =
    lookup-insert k j v m
    ∙ ap (λ x. if text_eq k j then some x else lookup j m) e
    ∙ ap (λ o. if text_eq k j then some v' else o) (same j)
    ∙ sym (lookup-insert k j v' m')

erase_same :
    (k : Text) (m m' : Map ℤ)
    → ((j : Text) → lookup j m ≡ lookup j m')
    → (j : Text) → lookup j (erase k m) ≡ lookup j (erase k m')
erase_same k m m' same j =
    lookup-erase k j m
    ∙ ap (λ o. if text_eq k j then none else o) (same j)
    ∙ sym (lookup-erase k j m')

debit_same :
    (tx : Transaction) (m m' : Map ℤ)
    → ((j : Text) → lookup j m ≡ lookup j m')
    → (j : Text) → lookup j (debit tx m) ≡ lookup j (debit tx m')
unfolding debit
debit_same tx m m' same j =
    let left = insert tx.from (get (pos 0) tx.from m -64 tx.amount) m in
    let left' = insert tx.from (get (pos 0) tx.from m' -64 tx.amount) m' in
    let alike : (i : Text) → lookup i left ≡ lookup i left' =
      insert_same tx.from _ _ m m'
        (ap (λ z. z -64 tx.amount) (get_same (pos 0) tx.from m m' (same tx.from))) same in
    let held = get_same (pos 0) tx.from left left' (alike tx.from) in
    ground (arith, held, alike j, same j, erase_same tx.from left left' alike j)

credit_same :
    (tx : Transaction) (m m' : Map ℤ)
    → ((j : Text) → lookup j m ≡ lookup j m')
    → (j : Text) → lookup j (credit tx m) ≡ lookup j (credit tx m')
unfolding credit
credit_same tx m m' same =
    insert_same tx.to _ _ m m'
      (ap (λ z. z +64 tx.amount) (get_same (pos 0) tx.to m m' (same tx.to))) same

module _ (c : Crypto) where
  can_apply_same :
      (tx : Transaction) (s s' : State) → SameEntries s s' → can_apply c s tx ≡ can_apply c s' tx
  unfolding can_apply
  can_apply_same tx s s' same =
      rw
        (
          get_same (pos 0) tx.from s.balances s'.balances (same tx.from),
          get_same (pos 0) tx.to s.balances s'.balances (same tx.to),
        )
        refl

  apply_same :
      (tx : Transaction) (s s' : State)
      → SameEntries s s'
      → ((apply c tx s).0 ≡ (apply c tx s').0) × SameEntries (apply c tx s).1 (apply c tx s').1
  unfolding apply
  apply_same tx s s' same = elim (Result-cases (can_apply c s' tx)) [
    | inl (u, e) ↦
        let e' = can_apply_same tx s s' same ∙ e in
        let moved =
          credit_same tx (debit tx s.balances) (debit tx s'.balances)
            (debit_same tx s.balances s'.balances same) in
        (ground (arith, e, e'), λ j. ground (arith, e, e', moved j))
    | inr (u, e) ↦
        let e' = can_apply_same tx s s' same ∙ e in
        (ground (arith, e, e'), λ j. ground (arith, e, e', same j))
  ]

  apply_from_same :
      (i : ℕ) (txs : List Transaction) (s s' : State)
      → SameEntries s s'
      → ((apply_from c i txs s).0 ≡ (apply_from c i txs s').0)
        × SameEntries (apply_from c i txs s).1 (apply_from c i txs s').1
  unfolding apply_from
  apply_from_same i [] s s' same = (refl, same)
  apply_from_same i (tx ∷ txs) s s' same =
      let (result, left) = apply_same tx s s' same in
      let rest = apply_from_same (suc i) txs (apply c tx s).1 (apply c tx s').1 left in
      elim (Result-cases (apply c tx s').0) [
        | inl (u, e) ↦ rw (result ∙ e, e, apply_from) rest
        | inr (u, e) ↦ rw (result ∙ e, e, apply_from) (refl, left)
      ]

  pub apply_all_same :
      (txs : List Transaction) (s s' : State)
      → IsSound s
      → IsSound s'
      → SameEntries s s'
      → ((apply_all c txs s).0 ≡ (apply_all c txs s').0)
        × SameEntries (apply_all c txs s).1 (apply_all c txs s').1
  unfolding apply_all
  apply_all_same txs s s' h h' same =
      let entries : (t : State) → IsSound t → SameEntries (clone t) t =
        λ t sound j. ap (λ (x : State). lookup j x.balances) (clone_id t sound) in
      let copied : SameEntries (clone s) (clone s') =
        λ j. entries s h j ∙ same j ∙ sym (entries s' h' j) in
      let (result, left) = apply_from_same 0 txs (clone s) (clone s') copied in
      elim (Result-cases (apply_from c 0 txs (clone s')).0) [
        | inl (u, e) ↦ rw (result ∙ e, e, apply_all) (refl, left)
        | inr (u, e) ↦ rw (result ∙ e, e, apply_all) (refl, same)
      ]

  pub apply_all-IsSound :
      (txs : List Transaction) (s : State) → IsSound s → IsSound (apply_all c txs s).1
  apply_all-IsSound txs s h = elim (apply_all_refines c s h txs) [
    | inl (t, r, sound, _, _) ↦ subst (λ x. IsSound x.1) (sym r) sound
    | inr (k, tx, e, _, r) ↦ subst (λ x. IsSound x.1) (sym r) h
  ]

  -- Walks over maps do not show: from two sound states with the same entries, in whatever order,
  -- ApplyAll gives one verdict and leaves states with the same entries, whose Accounts and Supply
  -- are the same.
  pub apply_all_unordered :
      (txs : List Transaction) (s s' : State)
      → IsSound s
      → IsSound s'
      → SameEntries s s'
      → let (r, t) = apply_all c txs s in
        let (r', t') = apply_all c txs s' in
        (r ≡ r') × SameEntries t t' × (accounts t ≡ accounts t') × (supply t ≡ supply t')
  apply_all_unordered txs s s' h h' same =
      let (result, left) = apply_all_same txs s s' h h' same in
      let sound = apply_all-IsSound txs s h in
      let sound' = apply_all-IsSound txs s' h' in
      (
        result,
        left,
        accounts_unordered _ _ sound sound' left,
        supply_unordered _ _ sound sound' left,
      )
