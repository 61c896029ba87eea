-- ===== src/Ledger/Unique.antt =====
-- Accounts in internal/ledger/state.go: a sorted listing is determined by what it shows.
use toy_blockchain.Prelude.{
  ◌≡◌, refl, sym, ap, ◌∙◌, true, false, none, some, List, [], ◌∷◌, Text, text_eq, text_eq_iff,
  text_eq_refl, arith, ℤ, Bool-cases, Option-cases, inl, inr, All,
}
use toy_blockchain.Ledger.State.{Account, text_less}
use toy_blockchain.Ledger.Listing.{text_less_trans, find, Ascending}

text_less_irrefl : (x : Text) → text_less x x ≡ false
unfolding text_less
text_less_irrefl [] = refl
text_less_irrefl (a ∷ x) = ground (arith, text_less_irrefl x)

-- What stands behind `d` is not `d`, and comes after it.
find_behind :
    (d : Text) (l : List Account) (x : Text) (v : ℤ)
    → All (λ b. text_less d b.address ≡ true) l
    → find x l ≡ some v
    → text_less d x ≡ true
find_behind d [] x v h e = cc
find_behind d (b ∷ l) x v h e = elim (Bool-cases (text_eq b.address x)) [
  | inl t ↦ ap (text_less d) (sym ((text_eq_iff b.address x).0 t)) ∙ h.0
  | inr t ↦ find_behind d l x v h.1 (rw t at e)
]

find_self :
    (d : Text) (l : List Account) → All (λ b. text_less d b.address ≡ true) l → find d l ≡ none
find_self d l h = elim (Option-cases (find d l)) [
  | inl e ↦ e
  | inr (v, e) ↦ absurd (ground (arith, find_behind d l d v h e, text_less_irrefl d))
]

tails :
    (a b : Account) (l l' : List Account)
    → All (λ d. text_less a.address d.address ≡ true) l
    → All (λ d. text_less b.address d.address ≡ true) l'
    → a.address ≡ b.address
    → ((j : Text) → find j (a ∷ l) ≡ find j (b ∷ l'))
    → (j : Text) → find j l ≡ find j l'
tails a b l l' h h' there same j = elim (Bool-cases (text_eq a.address j)) [
  | inl t ↦
      let at_j = (text_eq_iff a.address j).0 t in
      ap (λ x. find x l) (sym at_j)
      ∙ find_self a.address l h
      ∙ sym (find_self b.address l' h')
      ∙ ap (λ x. find x l') (sym there ∙ at_j)
  | inr t ↦ ground (arith, same j, t, ap (λ x. text_eq x j) there)
]

-- A listing in ascending order is determined by what it shows for each address.
pub listing_unique :
    (l l' : List Account)
    → Ascending l
    → Ascending l'
    → ((j : Text) → find j l ≡ find j l')
    → l ≡ l'
listing_unique [] [] h h' same = refl
listing_unique [] (b ∷ l') h h' same =
    absurd (ground (arith, same b.address, text_eq_refl b.address))
listing_unique (a ∷ l) [] h h' same =
    absurd (ground (arith, same a.address, text_eq_refl a.address))
listing_unique (a ∷ l) (b ∷ l') h h' same = elim (Bool-cases (text_eq a.address b.address)) [
  | inl t ↦
      let there : a.address ≡ b.address = (text_eq_iff a.address b.address).0 t in
      let amount : a.balance ≡ b.balance =
        ground (arith, same a.address, text_eq_refl a.address, text_eq_refl b.address, there, t) in
      let rest : (j : Text) → find j l ≡ find j l' = tails a b l l' h.0 h'.0 there same in
      cc (there, amount, listing_unique l l' h.1 h'.1 rest)
  | inr t ↦
      let after_b : find a.address l' ≡ some a.balance = ground (
        arith,
        same a.address,
        text_eq_refl a.address,
        text_eq_iff b.address a.address,
        t,
        text_eq_iff a.address b.address,
      ) in
      let after_a : find b.address l ≡ some b.balance =
        ground (arith, same b.address, text_eq_refl b.address, t) in
      absurd (
        ground (
          arith,
          text_less_trans a.address b.address a.address
              (find_behind a.address l b.address b.balance h.0 after_a)
              (find_behind b.address l' a.address a.balance h'.0 after_b),
          text_less_irrefl a.address,
        ))
]
