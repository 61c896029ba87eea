-- ===== src/Ledger/Malleable.antt =====
-- The spelling of a signature: VerifySignature of internal/ledger/signature.go reads hex digits of
-- both cases, and the ID of internal/ledger/transaction.go hashes them as they are written.
use toy_blockchain.Prelude.{
  ℕ, ◌-◌, ◌≡◌, ◌⊎◌, ◌≢◌, inl, inr, Bool-cases, text_eq_iff, text_eq_complete, refl, ◌∙◌, [], ◌∷◌,
  map, ◌&&◌, Text, text_eq, leb, arith, if◌then◌else◌, ok,
}
use toy_blockchain.Crypto.{Crypto, IsCrypto, Collides}
use toy_blockchain.Go.Hex.{from_hex_char, hex_decode}
use toy_blockchain.Ledger.Transaction.{Transaction, signing_bytes, canonical_bytes, is_coinbase}
use toy_blockchain.Ledger.Signature.{decode_sized, signature_size, verify_signature, validate, id}
use toy_blockchain.Ledger.State.{State, can_apply}
use toy_blockchain.Ledger.Balances.{can_apply-eq-ok}
use toy_blockchain.Ledger.Authority.{id-injective}

-- A hex digit in upper case.
abbrev pub upper : ℕ → ℕ
upper c = if leb b'a' c && leb c b'f' then c - 32 else c

from_hex_char-upper : (c : ℕ) → from_hex_char (upper c) ≡ from_hex_char c
unfolding from_hex_char
from_hex_char-upper c = ground arith

hex_decode-upper : (t : Text) → hex_decode (map upper t) ≡ hex_decode t
unfolding hex_decode
hex_decode-upper [] = refl
hex_decode-upper (a ∷ []) = refl
hex_decode-upper (a ∷ b ∷ t) =
    rw (from_hex_char-upper a, from_hex_char-upper b, hex_decode-upper t) refl

text_eq_nil-upper : (t : Text) → text_eq (map upper t) [] ≡ text_eq t []
unfolding text_eq
text_eq_nil-upper [] = refl
text_eq_nil-upper (a ∷ t) = refl

decode_sized-upper : (n : ℕ) (t : Text) → decode_sized n (map upper t) ≡ decode_sized n t
unfolding decode_sized
decode_sized-upper n t = rw (decode_sized, hex_decode-upper t) refl

-- The transaction with its signature in upper case, which needs no key to make.
abbrev pub respelled : Transaction → Transaction
respelled t = record t { signature = map upper t.signature }

module _ (c : Crypto) (t : Transaction) where
  verify_signature-respelled : verify_signature c (respelled t) ≡ verify_signature c t
  unfolding verify_signature signing_bytes
  verify_signature-respelled =
      rw (text_eq_nil-upper t.signature, decode_sized-upper signature_size t.signature) refl

  validate-respelled : validate c (respelled t) ≡ validate c t
  unfolding validate is_coinbase
  validate-respelled = rw (verify_signature-respelled, text_eq_nil-upper t.signature) refl

  accepted_alike : (s : State) → can_apply c s (respelled t) ≡ can_apply c s t
  unfolding can_apply is_coinbase
  accepted_alike s = rw validate-respelled refl

  -- A transaction that is accepted on some balances is accepted on them with its signature in upper
  -- case too, for which no key is needed; and it then has another ID, unless it is the same
  -- transaction or the hash of the two collides.
  pub can_apply-respelled :
      IsCrypto c
      → (s : State) → can_apply c s t ≡ ok tt
      → (can_apply c s (respelled t) ≡ ok tt)
        × ((id c (respelled t) ≢ id c t)
            ⊎ ((respelled t ≡ t) ⊎ Collides c (canonical_bytes (respelled t)) (canonical_bytes t)))
  can_apply-respelled laws s h =
      let valid = (can_apply-eq-ok c s t h).0 in
      (
        accepted_alike s ∙ h,
        elim (Bool-cases (text_eq (id c (respelled t)) (id c t))) [
          | inr apart ↦ inl (λ e. cc (apart, text_eq_complete (id c (respelled t)) (id c t) e))
          | inl same ↦ inr (
              id-injective c (respelled t) t (validate-respelled ∙ valid) valid laws
                ((text_eq_iff (id c (respelled t)) (id c t)).0 same))
        ],
      )
