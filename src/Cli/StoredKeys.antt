-- ===== src/Cli/StoredKeys.antt =====
-- Open in internal/wallet/wallet.go after a Create: what the keystore file gives back.
use toy_blockchain.Prelude.{
  ◌≡◌, ◌≢◌, inl, inr, sym, ap, ◌∙◌, Bool, true, false, Option, some, Text, All, if◌then◌else◌,
  Result, ok, err, arith, Result-cases,
}
use toy_blockchain.Go.Hex.{IsByte}
use toy_blockchain.Go.Map.{lookup}
use toy_blockchain.Crypto.{Crypto}
use toy_blockchain.Ledger.Signature.{KeyPair, address}
use toy_blockchain.Ledger.Signing.{IsKeyPair}
use toy_blockchain.Store.{Json, Disk}
use toy_blockchain.Wallet.{
  Keystore, WalletError, not_saved, create, key_pair, resolve, create-key_pair,
}
use toy_blockchain.Wallet.Saving.{Writing, read_keys, key_contents, save_keys, create_saved}
use toy_blockchain.Wallet.Kept.{create_path}
use toy_blockchain.Cli.App.{open_wallet, open_keys}
use toy_blockchain.Cli.Keys.{added, reached, made_pair, create_file}

ok_of_if :
    (saved : Bool) (r : Result WalletError KeyPair) (made : KeyPair)
    → (if saved then r else err not_saved) ≡ ok made
    → r ≡ ok made
ok_of_if true r made h = h
ok_of_if false r made h = absurd (ground (arith, h))

-- After a Create that returns nil, with the pair that it has made.
pub succeeded :
    (json : Json) (no_dir : Bool) (writing : Writing) (label : Text) (k : Keystore) (disk : Disk)
    (generated : Option KeyPair) (made : KeyPair)
    → let (r, k', disk') = create_saved json generated no_dir writing label k disk in
      r ≡ ok made
      → ((create generated true label k).0 ≡ ok made)
        × (k' ≡ (create generated true label k).1)
        × (lookup k.path disk' ≡ some (key_contents json k'.keys))
unfolding create_saved
succeeded json no_dir writing label k disk generated made h =
    elim (Result-cases (create generated true label k).0) [
      | inr (e, r) ↦ absurd (ground (arith, h, r))
      | inl (pair, r) ↦
          let same = reached json no_dir writing label k disk generated pair r in
          let (given, _, _, keys) = made_pair json no_dir writing label k disk generated pair r in
          elim (create_file json no_dir writing label k disk generated) [
            | inr (inl (e, bad, _)) ↦ absurd (cc (bad, h))
            | inr (inr (part, _, bad, _)) ↦ absurd (cc (bad, h))
            | inl (p, e, same_pair, _, _, there) ↦ (
              r
                  ∙ ok_of_if
                      (save_keys json no_dir writing
                        (added json no_dir writing label k disk generated) disk).0
                      (ok pair) made (sym (ap (λ t. t.0) same) ∙ h),
              ap (λ t. t.1) same,
              cc (there, same, same_pair, given, keys),
            )
          ]
    ]

opens :
    (json : Json) (path : Text) (k : Keystore) (disk : Disk)
    → k.path ≡ path
    → lookup path disk ≡ some (key_contents json k.keys)
    → json.decode_keys (key_contents json k.keys) ≡ some k.keys
    → open_keys json false path disk ≡ ok k
unfolding open_keys read_keys open_wallet
opens json path k disk same there reads = ground (arith, same, there, reads)

-- Where JSON reads back the labels and keys that it wrote: after a Create that returns nil, Open finds
-- the keystore as it is in memory, the pair returned is the one that was generated, the label has that
-- pair and resolves to its address, whatever text it is, and every other label is what it was.
pub open-create :
    (c : Crypto) (json : Json) (no_dir : Bool) (writing : Writing) (label : Text) (k : Keystore)
    (disk : Disk) (pair made : KeyPair)
    → (let keys' = (create (some pair) true label k).1.keys in
        json.decode_keys (key_contents json keys') ≡ some keys')
    → IsKeyPair c pair
    → All IsByte pair.private_key
    → (create_saved json (some pair) no_dir writing label k disk).0 ≡ ok made
    → let (r, k', disk') = create_saved json (some pair) no_dir writing label k disk in
      (open_keys json false k.path disk' ≡ ok k')
      × (made ≡ pair)
      × (key_pair c label k' ≡ ok pair)
      × (resolve c label k' ≡ address c pair)
      × ((other : Text) → other ≢ label → lookup other k'.keys ≡ lookup other k.keys)
open-create c json no_dir writing label k disk pair made reads keys bytes h =
    let (r, same, there) = succeeded json no_dir writing label k disk (some pair) made h in
    let (given, named, fresh, _) = made_pair json no_dir writing label k disk (some pair) made r in
    let (found, resolved, others) = create-key_pair c pair true label k keys bytes named fresh in
    (
      opens json k.path (create_saved json (some pair) no_dir writing label k disk).1 _
          (ap (λ k'. k'.path) same ∙ create_path (some pair) true label k) there (cc (same, reads)),
      cc given,
      ap (key_pair c label) same ∙ found,
      ap (resolve c label) same ∙ resolved,
      (λ other ne. ap (λ k'. lookup other k'.keys) same ∙ others other ne),
    )
