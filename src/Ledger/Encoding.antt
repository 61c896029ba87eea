-- ===== src/Ledger/Encoding.antt =====
-- The byte encodings of internal/ledger/transaction.go say which transaction they encode.
use toy_blockchain.Prelude.{
  ℕ, ◌≡◌, refl, ap, sym, ◌∙◌, List, [], ◌∷◌, ◌++◌, drop, Text, length, arith, Free,
  split_at_separator, ∷-injective, append_assoc,
}
use mathlib.Core.Path.{subst}
use toy_blockchain.Go.Decimal.{
  format_uint, format_int, format_uint-injective, format_int-injective, format_uint-Free,
  format_int-Free,
}
use toy_blockchain.Ledger.Transaction.{Transaction, len_prefixed, signing_bytes}

module _ {ℓ} {A : Type ℓ} where
  -- Two lists whose first parts have one length agree part by part.
  pub append-injective :
      (x y r s : List A) → length x ≡ length y → x ++ r ≡ y ++ s → (x ≡ y) × (r ≡ s)
  append-injective [] [] r s l e = (refl, e)
  append-injective [] (b ∷ y) r s l e = absurd (omega (arith, l))
  append-injective (a ∷ x) [] r s l e = absurd (omega (arith, l))
  append-injective (a ∷ x) (b ∷ y) r s l e =
      let t = ∷-injective e in
      let ih = append-injective x y r s (omega (arith, l)) t.1 in (cc (t.0, ih.0), ih.1)

-- A length-prefixed field can be cut off whatever it holds.
len_prefixed-injective :
    (x y r s : Text) → len_prefixed x ++ r ≡ len_prefixed y ++ s → (x ≡ y) × (r ≡ s)
unfolding len_prefixed
len_prefixed-injective x y r s e =
    let flat =
      sym (append_assoc (format_uint (length x)) (b':' ∷ x) r)
      ∙ e
      ∙ append_assoc (format_uint (length y)) (b':' ∷ y) s in
    let t =
      split_at_separator b':' (format_uint (length x)) (format_uint (length y)) (x ++ r) (y ++ s)
        (format_uint-Free b':' (length x) (omega arith))
        (format_uint-Free b':' (length y) (omega arith)) flat in
    append-injective x y r s (format_uint-injective (length x) (length y) t.0) t.1

-- Two transactions agree in every field but the signature.
pub record SameSigned (t u : Transaction) : Type 0 where
  pub from : t.from ≡ u.from
  pub to : t.to ≡ u.to
  pub amount : t.amount ≡ u.amount
  pub timestamp : t.timestamp ≡ u.timestamp
  pub pub_key : t.pub_key ≡ u.pub_key

-- The signed bytes determine every field that they are meant to cover, for any contents of the
-- addresses and of the key. No address can imitate a separator.
pub signing_bytes-injective :
    (t u : Transaction) → signing_bytes t ≡ signing_bytes u → SameSigned t u
unfolding signing_bytes
signing_bytes-injective t u e =
    let (from, e1) =
      len_prefixed-injective t.from u.from
        (b'|'
          ∷ (len_prefixed t.to
              ++ b'|'
                ∷ (format_int t.amount ++ b'|' ∷ (format_int t.timestamp ++ b'|' ∷ t.pub_key))))
        (b'|'
          ∷ (len_prefixed u.to
              ++ b'|'
                ∷ (format_int u.amount ++ b'|' ∷ (format_int u.timestamp ++ b'|' ∷ u.pub_key))))
        (ap (λ x. drop 3 x) e) in
    let (to, e2) =
      len_prefixed-injective t.to u.to
        (b'|' ∷ (format_int t.amount ++ b'|' ∷ (format_int t.timestamp ++ b'|' ∷ t.pub_key)))
        (b'|' ∷ (format_int u.amount ++ b'|' ∷ (format_int u.timestamp ++ b'|' ∷ u.pub_key)))
        (∷-injective e1).1 in
    let (amount, e3) =
      split_at_separator b'|' (format_int t.amount) (format_int u.amount)
        (format_int t.timestamp ++ b'|' ∷ t.pub_key) (format_int u.timestamp ++ b'|' ∷ u.pub_key)
        (format_int-Free b'|' t.amount (omega arith)) (format_int-Free b'|' u.amount (omega arith))
        (∷-injective e2).1 in
    let (timestamp, pub_key) =
      split_at_separator b'|' (format_int t.timestamp) (format_int u.timestamp) t.pub_key u.pub_key
        (format_int-Free b'|' t.timestamp (omega arith))
        (format_int-Free b'|' u.timestamp (omega arith)) e3 in
    record {
      from = from;
      to = to;
      amount = format_int-injective t.amount u.amount amount;
      timestamp = format_int-injective t.timestamp u.timestamp timestamp;
      pub_key = pub_key;
    }

not-Free-append : (c : ℕ) (x s : Text) → ¬ Free c (x ++ c ∷ s)
not-Free-append c [] s h = h.0 refl
not-Free-append c (a ∷ x) s h = not-Free-append c x s h.1

-- Cutting at the last separator, where the parts after it have none.
pub split_at_last :
    (c : ℕ) (x y r s : Text) → Free c r → Free c s → x ++ c ∷ r ≡ y ++ c ∷ s → (x ≡ y) × (r ≡ s)
split_at_last c [] [] r s fr fs e = (refl, (∷-injective e).1)
split_at_last c [] (b ∷ y) r s fr fs e =
    absurd (not-Free-append c y s (subst (Free c) (∷-injective e).1 fr))
split_at_last c (a ∷ x) [] r s fr fs e =
    absurd (not-Free-append c x r (subst (Free c) (sym (∷-injective e).1) fs))
split_at_last c (a ∷ x) (b ∷ y) r s fr fs e =
    let t = ∷-injective e in let ih = split_at_last c x y r s fr fs t.1 in (cc (t.0, ih.0), ih.1)
