-- ===== src/Wallet.antt =====
-- internal/wallet/wallet.go. Key generation and whether the save succeeds are answers from outside;
-- Wallet.Saving has the file.
pub mod Saving
pub mod Kept
use toy_blockchain.Prelude.{
  ◌≡◌, Bool, Option, none, some, List, [], ◌∷◌, Text, text_eq, text_eq_iff, text_eq_refl,
  if◌then◌else◌, arith, Result, ok, err, All, sym, ◌≢◌,
}
use toy_blockchain.Go.Hex.{IsByte, hex_decode-hex_encode}
use toy_blockchain.Go.Map.{Map, lookup, insert, lookup-insert}
use toy_blockchain.Crypto.{Crypto}
use toy_blockchain.Ledger.Signature.{KeyPair, KeyError, key_pair_from_hex, private_hex, address}
use toy_blockchain.Ledger.Signing.{IsKeyPair}
use toy_blockchain.Ledger.State.{text_less}

-- `keys`: label to the private key in hex.
pub record Keystore : Type 0 where
  pub path : Text
  pub keys : Map Text

pub record Entry : Type 0 where
  pub label : Text
  pub address : Text

pub data WalletError : Type 0 where
  no_label not_generated not_saved : WalletError
  exists no_key : Text → WalletError
  corrupt : Text → KeyError → WalletError
  bad_key : KeyError → WalletError

-- sort.Slice by the label; labels are distinct.
unfoldable pub insert_entry : Entry → List Entry → List Entry
insert_entry a [] = a ∷ []
insert_entry a (b ∷ l) = if text_less a.label b.label then a ∷ b ∷ l else b ∷ insert_entry a l

-- The search of `LabelFor` through the entries.
unfoldable pub label_in : Text → List Entry → Text
label_in addr [] = []
label_in addr (e ∷ l) = if text_eq e.address addr then e.label else label_in addr l

-- The pair is kept in memory also where the save fails: the error is returned beside the pair.
unfoldable pub create :
    Option KeyPair → Bool → Text → Keystore → Result WalletError KeyPair × Keystore
create generated saved label k =
    if text_eq label [] then (err no_label, k) else elim (lookup label k.keys) [
      | some _ ↦ (err (exists label), k)
      | none ↦ elim generated [
        | none ↦ (err not_generated, k)
        | some pair ↦
            let k' = record k { keys = insert label (private_hex pair) k.keys } in
            if saved then (ok pair, k') else (err not_saved, k')
      ]
    ]

sym_ne : (x y : Text) → x ≢ y → y ≢ x
sym_ne x y h e = h (sym e)

module _ (c : Crypto) where
  unfoldable pub key_pair : Text → Keystore → Result WalletError KeyPair
  key_pair label k = elim (lookup label k.keys) [
    | none ↦ err (no_key label)
    | some priv ↦ elim (key_pair_from_hex c priv) [ ok pair ↦ ok pair | err e ↦ err (bad_key e) ]
  ]

  -- The loop of `Entries`, over the labels in the order of the map.
  unfoldable pub entries_of : Map Text → Result WalletError (List Entry)
  entries_of [] = ok []
  entries_of ((label, priv) ∷ m) =
      let rest = entries_of m in
      elim (key_pair_from_hex c priv) [
        | err e ↦ err (corrupt label e)
        | ok pair ↦ elim rest [
          | err e ↦ err e
          | ok l ↦ ok (insert_entry (record { label = label; address = address c pair }) l)
        ]
      ]

  unfoldable pub entries : Keystore → Result WalletError (List Entry)
  entries k = entries_of k.keys

  unfoldable pub resolve : Text → Keystore → Text
  resolve label_or_address k = elim (lookup label_or_address k.keys) [
    | none ↦ label_or_address
    | some priv ↦ elim (key_pair_from_hex c priv) [
      | ok pair ↦ address c pair
      | err e ↦ label_or_address
    ]
  ]

  unfoldable pub label_for : Text → Keystore → Text
  label_for addr k = elim (entries k) [ err e ↦ [] | ok l ↦ label_in addr l ]

  key_pair_from_hex-private_hex :
      (pair : KeyPair)
      → IsKeyPair c pair
      → All IsByte pair.private_key
      → key_pair_from_hex c (private_hex pair) ≡ ok pair
  unfolding key_pair_from_hex private_hex
  key_pair_from_hex-private_hex pair keys bytes =
      ground (arith, hex_decode-hex_encode pair.private_key bytes, keys.size, keys.half)

  -- A key that was created, whether or not the keystore could be written, is found under its label
  -- as the pair that was generated, its label resolves to the address of that pair, and every other
  -- label is what it was before.
  pub create-key_pair :
      (pair : KeyPair) (saved : Bool) (label : Text) (k : Keystore)
      → IsKeyPair c pair
      → All IsByte pair.private_key
      → label ≢ []
      → lookup label k.keys ≡ none
      → let k' = (create (some pair) saved label k).1 in
        (key_pair label k' ≡ ok pair)
        × (resolve label k' ≡ address c pair)
        × ((other : Text) → other ≢ label → lookup other k'.keys ≡ lookup other k.keys)
  unfolding create key_pair resolve
  create-key_pair pair saved label k keys bytes named fresh =
      let read = key_pair_from_hex-private_hex pair keys bytes in
      let there = lookup-insert label label (private_hex pair) k.keys in
      (
        ground (arith, read, there, text_eq_refl label, text_eq_iff label []),
        ground (arith, read, there, text_eq_refl label, text_eq_iff label []),
        (λ other ne. ground (
          arith,
          lookup-insert label other (private_hex pair) k.keys,
          text_eq_iff label other,
          text_eq_iff label [],
          sym_ne other label ne,
        )),
      )
