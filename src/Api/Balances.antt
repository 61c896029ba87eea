-- ===== src/Api/Balances.antt =====
-- The total of GET /balances and of the command balance, against Supply of the ledger.
use toy_blockchain.Prelude.{
  ℕ, ◌+◌, ◌≡◌, sym, ◌∙◌, ap, List, [], ◌∷◌, map, ℤ, pos, negsuc, pos_part, wrap64, ◌+64◌, arith,
}
use toy_blockchain.Go.Map.{Map, AllValues}
use toy_blockchain.Crypto.{Crypto}
use toy_blockchain.Ledger.State.{Account, State, accounts, accounts_of, insert_account, supply}
use toy_blockchain.Ledger.Balances.{InRange, IsSound}
use toy_blockchain.Ledger.Listing.{listed, listed-accounts_of}
use toy_blockchain.Ledger.Refinement.{wrap_add, wrapped_zero, supply-eq}
use toy_blockchain.Api.Server.{Server, reply, all_balances}
use toy_blockchain.Api.Handlers.{account_view, total_of, get_balances}

abbrev Ranged : List Account → Type 0
Ranged [] = Unit
Ranged (a ∷ l) = InRange a.balance × Ranged l

insert_account-Ranged :
    (a : Account) (l : List Account) → InRange a.balance → Ranged l → Ranged (insert_account a l)
unfolding insert_account
insert_account-Ranged a [] h k = (h, tt)
insert_account-Ranged a (b ∷ l) h k = ground (arith, insert_account-Ranged a l h k.1)

accounts_of-Ranged : (m : Map ℤ) → AllValues InRange m → Ranged (accounts_of m)
unfolding accounts_of
accounts_of-Ranged [] h = tt
accounts_of-Ranged ((k, v) ∷ m) h =
    insert_account-Ranged (record { address = k; balance = v }) (accounts_of m) h.0
      (accounts_of-Ranged m h.1)

-- One round of the sum.
add_ranged : (n : ℕ) (b : ℤ) → InRange b → wrap64 (pos n) +64 b ≡ wrap64 (pos (n + pos_part b))
add_ranged n (pos k) h = wrap_add n k h.1
add_ranged n (negsuc k) h = absurd (omega (arith, h))

total_of-eq :
    (n : ℕ) (l : List Account)
    → Ranged l
    → total_of (wrap64 (pos n)) l ≡ wrap64 (pos (n + listed l))
unfolding total_of
total_of-eq n [] h = ap (λ k. wrap64 (pos k)) (omega arith)
total_of-eq n (a ∷ l) h =
    ap (λ z. total_of z l) (add_ranged n a.balance h.0)
    ∙ total_of-eq (n + pos_part a.balance) l h.1
    ∙ ap (λ k. wrap64 (pos k)) (omega arith)

total_of-accounts : (s : State) → IsSound s → total_of (pos 0) (accounts s) ≡ supply s
unfolding accounts
total_of-accounts s h =
    ap (λ z. total_of z (accounts s)) (sym wrapped_zero)
    ∙ total_of-eq 0 (accounts s) (accounts_of-Ranged s.balances h.in_range)
    ∙ ap (λ k. wrap64 (pos k)) (omega (arith, listed-accounts_of s.balances))
    ∙ sym (supply-eq s h)

-- On a sound state GET /balances answers 200 with the accounts of the ledger in their order and,
-- as their total, the int64 that Supply returns.
pub get_balances_total :
    (c : Crypto) (s : Server)
    → IsSound s.chain.state
    → get_balances c s
      ≡ reply 200
          (all_balances (map (account_view c s) (accounts s.chain.state)) (supply s.chain.state))
unfolding get_balances
get_balances_total c s h =
    ap (λ z. reply 200 (all_balances (map (account_view c s) (accounts s.chain.state)) z))
      (total_of-accounts s.chain.state h)
