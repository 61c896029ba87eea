-- ===== src/Ledger/Listing.antt =====
-- Accounts in internal/ledger/state.go: the sorted list of the accounts against the map.
use toy_blockchain.Prelude.{
  ℕ, ◌+◌, ◌≡◌, refl, ◌∙◌, ap, true, false, Option, none, some, List, [], ◌∷◌, ⊤, Text, text_eq,
  text_eq_iff, if◌then◌else◌, arith, ℤ, pos_part, Bool-cases, inl, inr, All, All-map,
}
use toy_blockchain.Go.Map.{Map, lookup, NoDup}
use toy_blockchain.Ledger.State.{State, Account, text_less, insert_account, accounts_of, accounts}
use toy_blockchain.Ledger.Balances.{IsSound}
use toy_blockchain.Ledger.Moves.{total}

pub text_less_trans :
    (x y z : Text) → text_less x y ≡ true → text_less y z ≡ true → text_less x z ≡ true
unfolding text_less
text_less_trans [] [] z h k = cc
text_less_trans [] (b ∷ y) [] h k = cc
text_less_trans [] (b ∷ y) (d ∷ z) h k = refl
text_less_trans (a ∷ x) [] z h k = cc
text_less_trans (a ∷ x) (b ∷ y) [] h k = cc
text_less_trans (a ∷ x) (b ∷ y) (d ∷ z) h k = ground (arith, text_less_trans x y z)

-- Two different addresses are in order one way or the other.
text_less_total : (x y : Text) → text_eq y x ≡ false → text_less x y ≡ false → text_less y x ≡ true
unfolding text_less text_eq
text_less_total [] [] e h = cc
text_less_total [] (b ∷ y) e h = cc
text_less_total (a ∷ x) [] e h = refl
text_less_total (a ∷ x) (b ∷ y) e h = ground (arith, text_less_total x y)

-- The balance that a list of accounts shows for an address.
abbrev pub find : Text → List Account → Option ℤ
find j [] = none
find j (a ∷ l) = if text_eq a.address j then some a.balance else find j l

-- Every address comes before all that follow it, so none comes twice.
abbrev pub Ascending : List Account → Type 0
Ascending [] = ⊤
Ascending (a ∷ l) = All (λ b. text_less a.address b.address ≡ true) l × Ascending l

find-insert_account :
    (a : Account) (l : List Account) (j : Text)
    → find a.address l ≡ none
    → find j (insert_account a l) ≡ (if text_eq a.address j then some a.balance else find j l)
unfolding insert_account
find-insert_account a [] j h = refl
find-insert_account a (b ∷ l) j h = ground (
  arith,
  find-insert_account a l j,
  text_eq_iff a.address j,
  text_eq_iff b.address j,
  text_eq_iff b.address a.address,
)

above-insert_account :
    (d a : Account) (l : List Account)
    → text_less d.address a.address ≡ true
    → All (λ b. text_less d.address b.address ≡ true) l
    → All (λ b. text_less d.address b.address ≡ true) (insert_account a l)
unfolding insert_account
above-insert_account d a [] h k = (h, tt)
above-insert_account d a (b ∷ l) h k = elim (Bool-cases (text_less a.address b.address)) [
  | inl e ↦ rw e (h, k)
  | inr e ↦ rw e (k.0, above-insert_account d a l h k.1)
]

insert_account-Ascending :
    (a : Account) (l : List Account)
    → find a.address l ≡ none
    → Ascending l
    → Ascending (insert_account a l)
unfolding insert_account
insert_account-Ascending a [] h s = (tt, tt)
insert_account-Ascending a (b ∷ l) h s = elim (Bool-cases (text_less a.address b.address)) [
  | inl e ↦ rw e (
    (
      e,
      All-map (λ d. text_less b.address d.address ≡ true)
          (λ d. text_less a.address d.address ≡ true)
          (λ d k. text_less_trans a.address b.address d.address e k) l s.0,
    ),
    s,
  )
  | inr e ↦
      let apart : text_eq b.address a.address ≡ false = ground arith in
      let absent : find a.address l ≡ none = ground arith in
      rw e (
        above-insert_account b a l (text_less_total a.address b.address apart e) s.0,
        insert_account-Ascending a l absent s.1,
      )
]

accounts_of-lookup : (m : Map ℤ) (j : Text) → NoDup m → find j (accounts_of m) ≡ lookup j m
unfolding accounts_of lookup
accounts_of-lookup [] j h = refl
accounts_of-lookup ((k, v) ∷ m) j h =
    find-insert_account (record { address = k; balance = v }) (accounts_of m) j
      (accounts_of-lookup m k h.1 ∙ h.0)
    ∙ ap (λ o. if text_eq k j then some v else o) (accounts_of-lookup m j h.1)

accounts_of-Ascending : (m : Map ℤ) → NoDup m → Ascending (accounts_of m)
unfolding accounts_of
accounts_of-Ascending [] h = tt
accounts_of-Ascending ((k, v) ∷ m) h =
    insert_account-Ascending (record { address = k; balance = v }) (accounts_of m)
      (accounts_of-lookup m k h.1 ∙ h.0) (accounts_of-Ascending m h.1)

-- On a sound state Accounts lists every account of the map once, with its balance, in strictly
-- ascending order of the addresses, and nothing else.
pub accounts_exact :
    (s : State)
    → IsSound s
    → Ascending (accounts s) × ((j : Text) → find j (accounts s) ≡ lookup j s.balances)
unfolding accounts
accounts_exact s h =
    (accounts_of-Ascending s.balances h.distinct, λ j. accounts_of-lookup s.balances j h.distinct)

-- The coins in a list of accounts.
abbrev pub listed : List Account → ℕ
listed [] = 0
listed (a ∷ l) = pos_part a.balance + listed l

listed-insert_account :
    (a : Account) (l : List Account) → listed (insert_account a l) ≡ pos_part a.balance + listed l
unfolding insert_account
listed-insert_account a [] = refl
listed-insert_account a (b ∷ l) = ground (arith, listed-insert_account a l)

pub listed-accounts_of : (m : Map ℤ) → listed (accounts_of m) ≡ total m
unfolding accounts_of
listed-accounts_of [] = refl
listed-accounts_of ((k, v) ∷ m) = omega (
  arith,
  listed-insert_account (record { address = k; balance = v }) (accounts_of m),
  listed-accounts_of m,
)
