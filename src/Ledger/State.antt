-- ===== src/Ledger/State.antt =====
-- internal/ledger/state.go. A method that changes the state returns the state beside its error, so
-- that what is left after a failure is part of the model. Clone copies the map entry by entry.
use toy_blockchain.Prelude.{
  ℕ, suc, Bool, true, false, List, [], ◌∷◌, ⊤, Text, ◌==◌, ltb, if◌then◌else◌, ℤ, pos, ltb_ℤ, eq_ℤ,
  max_int64, ◌+64◌, ◌-64◌, Result, ok, err, ◌>>◌, reject,
}
use toy_blockchain.Go.Map.{Map, get, insert, erase}
use toy_blockchain.Crypto.{Crypto}
use toy_blockchain.Ledger.Transaction.{
  Transaction, LedgerError, insufficient_funds, would_overflow, in_transaction, is_coinbase,
}
use toy_blockchain.Ledger.Signature.{validate}

pub record State : Type 0 where
  pub balances : Map ℤ

pub record Account : Type 0 where
  pub address : Text
  pub balance : ℤ

unfoldable pub new_state : State
new_state = record { balances = [] }

abbrev pub balance : State → Text → ℤ
balance s addr = get (pos 0) addr s.balances

unfoldable pub copy_entries : Map ℤ → Map ℤ
copy_entries [] = []
copy_entries ((addr, bal) ∷ m) = insert addr bal (copy_entries m)

unfoldable pub clone : State → State
clone s = record { balances = copy_entries s.balances }

-- `<` on strings.
unfoldable pub text_less : Text → Text → Bool
text_less [] [] = false
text_less [] (b ∷ y) = true
text_less (a ∷ x) [] = false
text_less (a ∷ x) (b ∷ y) = let rest = text_less x y in if a == b then rest else ltb a b

-- sort.Slice by the address; addresses are distinct, so the sorted list is determined.
unfoldable pub insert_account : Account → List Account → List Account
insert_account a [] = a ∷ []
insert_account a (b ∷ l) =
    if text_less a.address b.address then a ∷ b ∷ l else b ∷ insert_account a l

unfoldable pub accounts_of : Map ℤ → List Account
accounts_of [] = []
accounts_of ((addr, bal) ∷ m) =
    insert_account (record { address = addr; balance = bal }) (accounts_of m)

unfoldable pub accounts : State → List Account
accounts s = accounts_of s.balances

-- The loop of `Supply`, on int64.
unfoldable pub add_balances : ℤ → Map ℤ → ℤ
add_balances total [] = total
add_balances total ((addr, bal) ∷ m) = add_balances (total +64 bal) m

unfoldable pub supply : State → ℤ
supply s = add_balances (pos 0) s.balances

-- The sender's side of `Apply`: an account that is emptied is removed.
unfoldable pub debit : Transaction → Map ℤ → Map ℤ
debit tx m =
    if is_coinbase tx
    then m
    else (let left = insert tx.from (get (pos 0) tx.from m -64 tx.amount) m in
        if eq_ℤ (get (pos 0) tx.from left) (pos 0) then erase tx.from left else left)

-- The recipient's side.
unfoldable pub credit : Transaction → Map ℤ → Map ℤ
credit tx m = insert tx.to (get (pos 0) tx.to m +64 tx.amount) m

module _ (c : Crypto) where
  unfoldable pub can_apply : State → Transaction → Result LedgerError ⊤
  can_apply s tx = do
    validate c tx
    (if is_coinbase tx
        then ok tt
        else reject (ltb_ℤ (balance s tx.from) tx.amount)
            (insufficient_funds tx.from (balance s tx.from) tx.amount))
    reject (ltb_ℤ (pos max_int64 -64 balance s tx.to) tx.amount) (would_overflow tx.to)

  unfoldable pub apply : Transaction → State → Result LedgerError ⊤ × State
  apply tx s = elim (can_apply s tx) [
    | err e ↦ (err e, s)
    | ok _ ↦ (ok tt, record s { balances = credit tx (debit tx s.balances) })
  ]

  -- The loop of `ApplyAll`, from index `i` on, over the copy.
  unfoldable pub apply_from : ℕ → List Transaction → State → Result LedgerError ⊤ × State
  apply_from i [] next = (ok tt, next)
  apply_from i (tx ∷ txs) next =
      let (r, next') = apply tx next in
      elim r [ ok _ ↦ apply_from (suc i) txs next' | err e ↦ (err (in_transaction i tx e), next') ]

  unfoldable pub apply_all : List Transaction → State → Result LedgerError ⊤ × State
  apply_all txs s =
      let (r, next) = apply_from 0 txs (clone s) in
      elim r [ ok _ ↦ (ok tt, record s { balances = next.balances }) | err e ↦ (err e, s) ]
