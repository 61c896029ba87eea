-- ===== src/Ledger/Balances.antt =====
-- The accounts of internal/ledger/state.go under one transaction: the invariant of the balances,
-- which no operation breaks, and each balance after Apply on unbounded integers.
use toy_blockchain.Prelude.{
  ℕ, ◌+◌, ◌-◌, ◌≤◌, ◌<◌, ◌≡◌, false, Text, text_eq, if◌then◌else◌, arith, Option-cases, inl, inr, ℤ,
  pos, negsuc, pos_part, ltb_ℤ, max_int64, ◌+64◌, ◌-64◌, ◌+ℤ◌, ◌-ℤ◌, wrap64, ok,
}
use toy_blockchain.Go.Map.{
  Map, get, lookup, insert, erase, NoDup, AllValues, lookup-insert, lookup-erase, lookup-AllValues,
}
use toy_blockchain.Crypto.{Crypto}
use toy_blockchain.Ledger.Transaction.{Transaction, is_coinbase}
use toy_blockchain.Ledger.Signature.{validate}
use toy_blockchain.Ledger.State.{State, balance, can_apply}

-- A stored balance is positive and fits in an int64.
abbrev pub InRange : ℤ → Type 0
InRange (pos n) = (0 < n) × (n ≤ max_int64)
InRange (negsuc n) = 1 ≤ 0

-- Every account is listed once, with a positive balance that fits in an int64.
pub record IsSound (s : State) : Type 0 where
  pub distinct : NoDup s.balances
  pub in_range : AllValues InRange s.balances

-- A balance, as a number that is not negative and fits.
abbrev pub Fits : ℤ → Type 0
Fits (pos n) = n ≤ max_int64
Fits (negsuc n) = 1 ≤ 0

pub get-Fits : (k : Text) (m : Map ℤ) → AllValues InRange m → Fits (get (pos 0) k m)
unfolding get
get-Fits k m h = elim (Option-cases (lookup k m)) [
  | inl e ↦ rw (e, get) (omega arith)
  | inr (v, e) ↦ rw (e, get) (go v (lookup-AllValues InRange k v m h e))
]
  where
    go : (v : ℤ) → InRange v → Fits v
    go (pos n) r = r.1
    go (negsuc n) r = r

pub get-insert :
    (k j : Text) (v : ℤ) (m : Map ℤ)
    → get (pos 0) j (insert k v m) ≡ (if text_eq k j then v else get (pos 0) j m)
unfolding get
get-insert k j v m = ground (arith, lookup-insert k j v m)

pub get-erase :
    (k j : Text) (m : Map ℤ)
    → get (pos 0) j (erase k m) ≡ (if text_eq k j then pos 0 else get (pos 0) j m)
unfolding get
get-erase k j m = ground (arith, lookup-erase k j m)

-- What a transaction that passes its own checks is known to be.
pub record IsFormed (tx : Transaction) : Type 0 where
  pub positive : 0 < pos_part tx.amount
  pub distinct : is_coinbase tx ≡ false → text_eq tx.from tx.to ≡ false

pub validate-IsFormed : (c : Crypto) (tx : Transaction) → validate c tx ≡ ok tt → IsFormed tx
unfolding validate
validate-IsFormed c tx h = record { positive = ground arith; distinct = λ e. ground arith }

-- On balances that fit, the test against `math.MaxInt64 - balance` does not wrap.
pub room : (a : ℤ) → Fits a → pos max_int64 -64 a ≡ pos (max_int64 - pos_part a)
unfolding ◌-64◌ ◌-ℤ◌ wrap64
room (pos n) h = ground arith
room (negsuc n) h = absurd (omega arith)

pub plus-Fits :
    (a : ℤ) (k : ℕ) → Fits a → pos_part a + k ≤ max_int64 → a +64 pos k ≡ pos (pos_part a + k)
unfolding ◌+64◌ ◌+ℤ◌ wrap64
plus-Fits (pos n) k h l = ground arith
plus-Fits (negsuc n) k h l = absurd (omega arith)

pub minus-Fits : (a : ℤ) (k : ℕ) → Fits a → k ≤ pos_part a → a -64 pos k ≡ pos (pos_part a - k)
unfolding ◌-64◌ ◌-ℤ◌ wrap64
minus-Fits (pos n) k h l = ground arith
minus-Fits (negsuc n) k h l = absurd (omega arith)

-- What `CanApply` has established when it returns nil, on unbounded numbers.
pub record IsCovered (s : State) (tx : Transaction) : Type 0 where
  pub formed : IsFormed tx
  pub funded : is_coinbase tx ≡ false → pos_part tx.amount ≤ pos_part (balance s tx.from)
  pub fitting : pos_part (balance s tx.to) + pos_part tx.amount ≤ max_int64

pub balance-Fits : (s : State) (k : Text) → IsSound s → Fits (balance s k)
balance-Fits s k h = get-Fits k s.balances h.in_range

at_most_balance : (b a : ℤ) → Fits b → 0 < pos_part a → ltb_ℤ b a ≡ false → pos_part a ≤ pos_part b
at_most_balance b a f p h = ground arith

within_room :
    (b a : ℤ)
    → Fits b
    → 0 < pos_part a
    → ltb_ℤ (pos max_int64 -64 b) a ≡ false
    → pos_part b + pos_part a ≤ max_int64
within_room b a f p h = ground (arith, room b)

module _ (c : Crypto) (s : State) (tx : Transaction) where
  pub can_apply-eq-ok :
      can_apply c s tx ≡ ok tt
      → (validate c tx ≡ ok tt)
        × (is_coinbase tx ≡ false → ltb_ℤ (balance s tx.from) tx.amount ≡ false)
        × (ltb_ℤ (pos max_int64 -64 balance s tx.to) tx.amount ≡ false)
  unfolding can_apply
  can_apply-eq-ok h = (ground arith, (λ e. ground arith), ground arith)

  pub can_apply-IsCovered : IsSound s → can_apply c s tx ≡ ok tt → IsCovered s tx
  can_apply-IsCovered sound h =
      let (valid, covered, fits) = can_apply-eq-ok h in
      let formed = validate-IsFormed c tx valid in
      record {
        formed = formed;
        funded = λ e.
            at_most_balance (balance s tx.from) tx.amount (balance-Fits s tx.from sound)
              formed.positive (covered e);
        fitting =
            within_room (balance s tx.to) tx.amount (balance-Fits s tx.to sound) formed.positive
              fits;
      }
