-- ===== src/Ledger/Authority.antt =====
-- internal/ledger/signature.go and Validate: who can author a transfer, and that what a key pair
-- signs is accepted.
use mathlib.Core.Path.{subst}
use toy_blockchain.Prelude.{
  ℕ, suc, ◌≡◌, sym, ◌≢◌, ◌⊎◌, ◌↔◌, inl, inr, true, false, [], ◌∷◌, Text, text_eq, text_eq_iff,
  text_eq_complete, length, arith, Bool-cases, Option-cases, Free, ok, some, none,
}
use toy_blockchain.Go.Hex.{hex_decode, hex_decode-Free, hex_encode-injective}
use toy_blockchain.Crypto.{Crypto, IsCrypto, Collides}
use toy_blockchain.Ledger.Transaction.{Transaction, signing_bytes, canonical_bytes, is_coinbase}
use toy_blockchain.Ledger.Signature.{
  validate, verify_signature, hash, id, decode_sized, address_of, public_key_size, signature_size,
}
use toy_blockchain.Ledger.Encoding.{signing_bytes-injective, split_at_last}

decode_sized-eq-some :
    (n : ℕ) (t x : Text) → decode_sized n t ≡ some x → (hex_decode t ≡ some x) × (length x ≡ n)
unfolding decode_sized
decode_sized-eq-some n t x h = ground arith

decoded_empty : (n : ℕ) (t x : Text) → t ≡ [] → hex_decode t ≡ some x → length x ≡ suc n → ⊥
unfolding hex_decode
decoded_empty n [] x e d l = ground arith
decoded_empty n (b ∷ t) x e d l = cc

pub canonical_bytes-injective :
    (t u : Transaction)
    → Free b'|' t.signature
    → Free b'|' u.signature
    → canonical_bytes t ≡ canonical_bytes u
    → t ≡ u
unfolding canonical_bytes
canonical_bytes-injective t u ft fu e =
    let (signed, signature) =
      split_at_last b'|' (signing_bytes t) (signing_bytes u) t.signature u.signature ft fu e in
    let same = signing_bytes-injective t u signed in
    ground (arith, same.from, same.to, same.amount, same.timestamp, same.pub_key)

module _ (c : Crypto) where
  -- The owner of the sending address has signed the transaction as it stands.
  pub record IsAuthorised (t : Transaction) : Type 0 where
    pub key : Text
    pub sig : Text
    pub key_decoded : hex_decode t.pub_key ≡ some key
    pub key_length : length key ≡ public_key_size
    pub sig_decoded : hex_decode t.signature ≡ some sig
    pub sig_length : length sig ≡ signature_size
    pub owner : address_of c key ≡ t.from
    pub verified : c.ed25519_verify key (signing_bytes t) sig ≡ true

  verified_with :
      (t : Transaction) {key sig : Text}
      → verify_signature c t ≡ ok tt
      → decode_sized public_key_size t.pub_key ≡ some key
      → decode_sized signature_size t.signature ≡ some sig
      → (text_eq (address_of c key) t.from ≡ true)
        × (c.ed25519_verify key (signing_bytes t) sig ≡ true)
  unfolding verify_signature
  verified_with t h p q = ground arith

  verify-key :
      (t : Transaction)
      → verify_signature c t ≡ ok tt
      → (decode_sized public_key_size t.pub_key ≢ none)
        × (decode_sized signature_size t.signature ≢ none)
  unfolding verify_signature
  verify-key t h = ((λ e. ground arith), (λ e. ground arith))

  pub verify_signature-IsAuthorised :
      (t : Transaction) → verify_signature c t ≡ ok tt → IsAuthorised t
  verify_signature-IsAuthorised t h = elim (Option-cases (decode_sized public_key_size t.pub_key)) [
    | inl e ↦ absurd ((verify-key t h).0 e)
    | inr (key, p) ↦ elim (Option-cases (decode_sized signature_size t.signature)) [
      | inl e ↦ absurd ((verify-key t h).1 e)
      | inr (sig, q) ↦
          let (owner, verified) = verified_with t h p q in
          let (kd, kl) = decode_sized-eq-some public_key_size t.pub_key key p in
          let (sd, sl) = decode_sized-eq-some signature_size t.signature sig q in
          record {
            key = key;
            sig = sig;
            key_decoded = kd;
            key_length = kl;
            sig_decoded = sd;
            sig_length = sl;
            owner = (text_eq_iff (address_of c key) t.from).0 owner;
            verified = verified;
          }
    ]
  ]

  decoded-ne-nil :
      (n : ℕ) (t x : Text) → hex_decode t ≡ some x → length x ≡ suc n → text_eq t [] ≡ false
  decoded-ne-nil n t x d l = elim (Bool-cases (text_eq t [])) [
    | inl e ↦ absurd (decoded_empty n t x ((text_eq_iff t []).0 e) d l)
    | inr e ↦ e
  ]

  IsAuthorised-verify_signature : (t : Transaction) → IsAuthorised t → verify_signature c t ≡ ok tt
  unfolding verify_signature decode_sized
  IsAuthorised-verify_signature t a = ground (
    arith,
    decoded-ne-nil 31 t.pub_key a.key a.key_decoded a.key_length,
    decoded-ne-nil 63 t.signature a.sig a.sig_decoded a.sig_length,
    a.key_decoded,
    a.sig_decoded,
    a.key_length,
    a.sig_length,
    a.verified,
    text_eq_complete (address_of c a.key) t.from a.owner,
  )

  -- `VerifySignature` accepts exactly the transfers whose decoded key has the sender's address and
  -- verifies the decoded signature over the signing bytes.
  pub verify_signature_exact : (t : Transaction) → (verify_signature c t ≡ ok tt) ↔ IsAuthorised t
  verify_signature_exact t = (verify_signature-IsAuthorised t, IsAuthorised-verify_signature t)

  validate_coinbase :
      (t : Transaction)
      → validate c t ≡ ok tt
      → is_coinbase t ≡ true
      → (text_eq t.pub_key [] ≡ true) × (text_eq t.signature [] ≡ true)
  unfolding validate
  validate_coinbase t h e = ground arith

  validate_transfer :
      (t : Transaction)
      → validate c t ≡ ok tt
      → is_coinbase t ≡ false
      → (text_eq t.from t.to ≡ false) × (verify_signature c t ≡ ok tt)
  unfolding validate
  validate_transfer t h e = ground arith

  -- A transaction that passes Validate is either a coinbase without key and signature, or a
  -- transfer to another account that the key of the sending address has signed as it stands.
  pub validate_sound :
      (t : Transaction)
      → validate c t ≡ ok tt
      → ((t.from ≡ []) × (t.pub_key ≡ []) × (t.signature ≡ []))
        ⊎ ((t.from ≢ []) × (t.from ≢ t.to) × IsAuthorised t)
  unfolding is_coinbase
  validate_sound t h = elim (Bool-cases (is_coinbase t)) [
    | inl e ↦
        let (key, sig) = validate_coinbase t h e in
        inl (
          (text_eq_iff t.from []).0 e,
          (text_eq_iff t.pub_key []).0 key,
          (text_eq_iff t.signature []).0 sig,
        )
    | inr e ↦
        let (apart, signed) = validate_transfer t h e in
        inr (
          (λ p. cc (text_eq_complete t.from [] p, e)),
          (λ p. cc (text_eq_complete t.from t.to p, apart)),
          verify_signature-IsAuthorised t signed,
        )
  ]

  -- The last field of a valid transaction has no separator.
  pub signature-Free : (t : Transaction) → validate c t ≡ ok tt → Free b'|' t.signature
  signature-Free t h = elim (validate_sound t h) [
    | inl (from, key, sig) ↦ subst (Free b'|') (sym sig) tt
    | inr (from, apart, a) ↦ hex_decode-Free b'|' t.signature a.sig (omega arith) a.sig_decoded
  ]

  -- Two valid transactions with one ID are equal, or their two encodings are different byte
  -- strings with one SHA-256 digest.
  pub id-injective :
      (t u : Transaction)
      → validate c t ≡ ok tt
      → validate c u ≡ ok tt
      → IsCrypto c
      → id c t ≡ id c u
      → (t ≡ u) ⊎ Collides c (canonical_bytes t) (canonical_bytes u)
  unfolding id hash
  id-injective t u ht hu laws e =
      elim (Bool-cases (text_eq (canonical_bytes t) (canonical_bytes u))) [
        | inl same ↦ inl (
            canonical_bytes-injective t u (signature-Free t ht) (signature-Free u hu)
              ((text_eq_iff (canonical_bytes t) (canonical_bytes u)).0 same))
        | inr apart ↦ inr (record {
          differ = λ p. cc (text_eq_complete (canonical_bytes t) (canonical_bytes u) p, apart);
          agree =
              hex_encode-injective (c.sha256 (canonical_bytes t)) (c.sha256 (canonical_bytes u))
                (laws.sha256_bytes (canonical_bytes t)) (laws.sha256_bytes (canonical_bytes u)) e;
        })
      ]
