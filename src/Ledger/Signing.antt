-- ===== src/Ledger/Signing.antt =====
-- What KeyPair.Sign of internal/ledger/signature.go makes is accepted by Validate.
use toy_blockchain.Prelude.{
  ℕ, suc, zero, ◌<◌, ◌≡◌, refl, ap, ◌≢◌, true, false, [], ◌∷◌, Text, text_eq, text_eq_iff, length,
  arith, Bool-cases, All, ok, pos, leb_ℤ, take, length-take, inl, inr, ◌/◌, ◌%◌,
}
use toy_blockchain.Go.Hex.{hex_digit, hex_encode, hex_decode-hex_encode, length-hex_encode, IsByte}
use toy_blockchain.Crypto.{Crypto, IsCrypto}
use toy_blockchain.Ledger.Transaction.{
  Transaction, Role, recipient, sender, valid_address, all_allowed, is_allowed, signing_bytes,
  is_coinbase,
}
use toy_blockchain.Ledger.Signature.{
  KeyPair, validate, address_of, address, public_hex, sign, private_key_size,
}
use toy_blockchain.Ledger.Authority.{IsAuthorised, verify_signature_exact}

hex_digit-is_allowed : (d : ℕ) → d < 16 → is_allowed (hex_digit d) ≡ true
unfolding hex_digit is_allowed
hex_digit-is_allowed d h = ground arith

all_allowed-hex_encode : (x : Text) → All IsByte x → all_allowed (hex_encode x) ≡ true
unfolding hex_encode all_allowed
all_allowed-hex_encode [] h = refl
all_allowed-hex_encode (b ∷ x) h = ground (
  arith,
  hex_digit-is_allowed (b / 16) (omega (arith, h.0)),
  hex_digit-is_allowed (b % 16) (omega arith),
  all_allowed-hex_encode x h.1,
)

all_allowed-take : (n : ℕ) (x : Text) → all_allowed x ≡ true → all_allowed (take n x) ≡ true
unfolding all_allowed
all_allowed-take zero x h = refl
all_allowed-take (suc n) [] h = refl
all_allowed-take (suc n) (b ∷ x) h = ground (arith, all_allowed-take n x)

-- The public half belongs to the private one.
pub record IsKeyPair (c : Crypto) (k : KeyPair) : Type 0 where
  pub size : length k.private_key ≡ private_key_size
  pub half : k.public_key ≡ c.ed25519_public k.private_key

module _ (c : Crypto) (laws : IsCrypto c) where
  length-address : (k : KeyPair) → length (address c k) ≡ 16
  unfolding address address_of
  length-address k = omega (
    arith,
    length-take 16 (hex_encode (c.sha256 k.public_key)),
    length-hex_encode (c.sha256 k.public_key),
    laws.sha256_length k.public_key,
  )

  address-allowed : (k : KeyPair) → all_allowed (address c k) ≡ true
  unfolding address address_of
  address-allowed k =
      all_allowed-take 16 (hex_encode (c.sha256 k.public_key))
        (all_allowed-hex_encode (c.sha256 k.public_key) (laws.sha256_bytes k.public_key))

  address-ne-nil : (k : KeyPair) → text_eq (address c k) [] ≡ false
  address-ne-nil k = elim (Bool-cases (text_eq (address c k) [])) [
    | inl e ↦ absurd (
        omega (
          arith,
          length-address k,
          ap (λ (x : Text). length x) ((text_eq_iff (address c k) []).0 e),
        ))
    | inr e ↦ e
  ]

  -- An address derived from a key passes the address rules.
  pub address-valid : (role : Role) (k : KeyPair) → valid_address role (address c k) ≡ ok tt
  unfolding valid_address
  address-valid role k = ground (arith, length-address k, address-allowed k, address-ne-nil k)

  module _ (k : KeyPair) (keys : IsKeyPair c k) (t : Transaction) where
    verified_by :
        (m : Text) → c.ed25519_verify k.public_key m (c.ed25519_sign k.private_key m) ≡ true
    verified_by m = rw keys.half (laws.verify_sign k.private_key m keys.size)

    from-sign : (sign c k t).from ≡ address c k
    unfolding sign
    from-sign = refl

    to-sign : ((sign c k t).to ≡ t.to) × ((sign c k t).amount ≡ t.amount)
    unfolding sign
    to-sign = (refl, refl)

    sign-IsAuthorised : IsAuthorised c (sign c k t)
    unfolding sign public_hex signing_bytes address
    sign-IsAuthorised = record {
      key = k.public_key;
      sig = c.ed25519_sign k.private_key (signing_bytes (sign c k t));
      key_decoded =
          hex_decode-hex_encode k.public_key (rw keys.half (laws.public_bytes k.private_key));
      key_length = rw keys.half (laws.public_length k.private_key keys.size);
      sig_decoded =
          hex_decode-hex_encode (c.ed25519_sign k.private_key (signing_bytes (sign c k t)))
            (laws.sign_bytes k.private_key (signing_bytes (sign c k t)));
      sig_length = laws.sign_length k.private_key (signing_bytes (sign c k t));
      owner = refl;
      verified = verified_by (signing_bytes (sign c k t));
    }

    -- With cryptography that meets `IsCrypto`, whatever transfer a key pair signs is sent from the
    -- key's own address, and is valid as soon as the amount is positive and the recipient is a
    -- valid address other than the signer's.
    pub sign-valid :
        leb_ℤ t.amount (pos 0) ≡ false
        → valid_address recipient t.to ≡ ok tt
        → address c k ≢ t.to
        → (validate c (sign c k t) ≡ ok tt) × ((sign c k t).from ≡ address c k)
    unfolding validate is_coinbase
    sign-valid positive to apart = (
      ground (
        arith,
        from-sign,
        to-sign,
        text_eq_iff (address c k) t.to,
        address-ne-nil k,
        address-valid sender k,
        (verify_signature_exact c (sign c k t)).1 sign-IsAuthorised,
      ),
      from-sign,
    )
