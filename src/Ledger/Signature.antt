-- ===== src/Ledger/Signature.antt =====
-- internal/ledger/signature.go, and of internal/ledger/transaction.go what uses the cryptography:
-- Hash, ID and Validate.
use toy_blockchain.Prelude.{
  ℕ, not, ◌||◌, Option, none, some, [], ⊤, Text, text_eq, length, take, ◌==◌, if◌then◌else◌, pos,
  leb_ℤ, Result, ok, err, ◌>>=◌, ◌>>◌, reject, require,
}
use toy_blockchain.Go.Hex.{hex_encode, hex_decode}
use toy_blockchain.Crypto.{Crypto}
use toy_blockchain.Ledger.Transaction.{
  Transaction, LedgerError, recipient, sender, amount_not_positive, signed_coinbase, bad_public_key,
  bad_signature, altered, same_account, unsigned, wrong_key, is_coinbase, valid_address,
  signing_bytes, canonical_bytes,
}

abbrev pub address_length : ℕ
address_length = 16

-- ed25519.PrivateKeySize, PublicKeySize and SignatureSize.
abbrev pub private_key_size : ℕ
private_key_size = 64

abbrev pub public_key_size : ℕ
public_key_size = 32

abbrev pub signature_size : ℕ
signature_size = 64

pub record KeyPair : Type 0 where
  pub private_key : Text
  pub public_key : Text

pub data KeyError : Type 0 where
  not_hex : KeyError
  wrong_size : ℕ → KeyError

-- `hex.DecodeString` with the test of the length that follows it.
unfoldable pub decode_sized : ℕ → Text → Option Text
decode_sized n t = elim (hex_decode t) [
  | none ↦ none
  | some x ↦ if length x == n then some x else none
]

abbrev pub or_error {ℓ} : {A : Type ℓ} → Option A → LedgerError → Result LedgerError A
or_error none e = err e
or_error (some a) e = ok a

unfoldable pub private_hex : KeyPair → Text
private_hex k = hex_encode k.private_key

unfoldable pub public_hex : KeyPair → Text
public_hex k = hex_encode k.public_key

module _ (c : Crypto) where
  unfoldable pub address_of : Text → Text
  address_of pub_key = take address_length (hex_encode (c.sha256 pub_key))

  unfoldable pub key_pair_from_hex : Text → Result KeyError KeyPair
  key_pair_from_hex priv_hex = elim (hex_decode priv_hex) [
    | none ↦ err not_hex
    | some raw ↦
        if length raw == private_key_size
        then ok (record { private_key = raw; public_key = c.ed25519_public raw })
        else err (wrong_size (length raw))
  ]

  unfoldable pub address : KeyPair → Text
  address k = address_of k.public_key

  -- The transaction that is signed is the one with the sender and the public key filled in.
  unfoldable pub sign : KeyPair → Transaction → Transaction
  sign k t =
      let named = record t { from = address k; pub_key = public_hex k } in
      record named { signature = hex_encode (c.ed25519_sign k.private_key (signing_bytes named)) }

  unfoldable pub verify_signature : Transaction → Result LedgerError ⊤
  verify_signature t = do
    reject (text_eq t.pub_key [] || text_eq t.signature []) (unsigned t.from)
    pub_key ← or_error (decode_sized public_key_size t.pub_key) bad_public_key
    sig ← or_error (decode_sized signature_size t.signature) bad_signature
    require (text_eq (address_of pub_key) t.from) (wrong_key (address_of pub_key) t.from)
    require (c.ed25519_verify pub_key (signing_bytes t) sig) altered

  unfoldable pub validate : Transaction → Result LedgerError ⊤
  validate t = do
    reject (leb_ℤ t.amount (pos 0)) (amount_not_positive t.amount)
    valid_address recipient t.to
    if is_coinbase t
        then reject (not (text_eq t.pub_key []) || not (text_eq t.signature [])) signed_coinbase
        else do
          valid_address sender t.from
          reject (text_eq t.from t.to) (same_account t.from)
          verify_signature t

  unfoldable pub hash : Transaction → Text
  hash t = c.sha256 (canonical_bytes t)

  unfoldable pub id : Transaction → Text
  id t = hex_encode (hash t)
