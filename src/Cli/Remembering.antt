-- ===== src/Cli/Remembering.antt =====
-- keygen of internal/cli/commands.go and the run after it: the key is found again, the chain is kept.
use toy_blockchain.Prelude.{
  ◌≡◌, ◌≢◌, inl, inr, refl, sym, ap, ◌∙◌, false, true, some, [], ◌∷◌, Text, All, ok, err, arith,
  Result-cases, pos,
}
use toy_blockchain.Go.Hex.{IsByte}
use toy_blockchain.Go.Map.{lookup}
use toy_blockchain.Crypto.{Crypto}
use toy_blockchain.Config.{Config}
use toy_blockchain.Ledger.Signature.{KeyPair}
use toy_blockchain.Ledger.Signing.{IsKeyPair}
use toy_blockchain.Chain.Mine.{Chain}
use toy_blockchain.Store
use toy_blockchain.Store.{Json, Disk, File, trim_prefix, byte_order_mark, wrong_version}
use toy_blockchain.Wallet.{Keystore, create, key_pair}
use toy_blockchain.Wallet.Saving.{key_contents, create_saved}
use toy_blockchain.Wallet.Kept.{create_other}
use toy_blockchain.World.{World}
use toy_blockchain.Cli.App.{App, from_store, open_app, with_wallet, open_chain, open_keys}
use toy_blockchain.Cli.Commands.{Shown}
use toy_blockchain.Cli.Commands
use toy_blockchain.Cli.Opening.{open_app-parts, open_same}
use toy_blockchain.Cli.StoredKeys.{succeeded, open-create}

module _ (c : Crypto) (json : Json) (w : World) (label : Text) where
  -- keygen that succeeds is a Create that returns nil.
  created_by :
      (a : App) (shown : Shown)
      → (Commands.keygen c w json (label ∷ []) a).0 ≡ ok shown
      → let (r, wallet, disk) =
          create_saved json w.generated w.no_key_dir w.key_writing label a.wallet a.disk in
        let a' = (Commands.keygen c w json (label ∷ []) a).1 in
        ((made : KeyPair) × (r ≡ ok made))
        × (a'.wallet ≡ wallet)
        × (a'.disk ≡ disk)
        × (a'.chain ≡ a.chain)
  unfolding Commands.keygen
  created_by a shown h =
      elim (Result-cases
        (create_saved json w.generated w.no_key_dir w.key_writing label a.wallet a.disk).0) [
          | inr (e, r) ↦ absurd (ground (arith, h, r))
          | inl (made, r) ↦ ((made, r), ground (arith, r), ground (arith, r), ground (arith, r))
        ]

  reopened :
      (cfg : Config) (disk : Disk) (ch : Chain) (k : Keystore)
      → open_chain c json cfg false disk ≡ ok ch
      → open_keys json false cfg.key_file disk ≡ ok k
      → open_app c json cfg false false disk
        ≡ ok (record { cfg = cfg; chain = ch; store = cfg.data_file; disk = disk; wallet = k })
  unfolding open_app with_wallet
  reopened cfg disk ch k chain keys = ground (arith, chain, keys)

  -- Where the keystore is not the chain file and JSON reads back the labels and keys that it writes: a
  -- keygen that succeeds with the pair that was generated leaves a disk on which the next run opens
  -- the same chain and the keystore as keygen has left it, with that pair under the label, and under
  -- every other label what was there before.
  pub keygen_remembered :
      (cfg : Config) (a : App) (disk : Disk) (pair : KeyPair) (shown : Shown)
      → cfg.data_file ≢ cfg.key_file
      → open_app c json cfg false false disk ≡ ok a
      → w.generated ≡ some pair
      → (let keys' = (create (some pair) true label a.wallet).1.keys in
          json.decode_keys (key_contents json keys') ≡ some keys')
      → IsKeyPair c pair
      → All IsByte pair.private_key
      → (Commands.keygen c w json (label ∷ []) a).0 ≡ ok shown
      → let a' = (Commands.keygen c w json (label ∷ []) a).1 in
        (next : App) × (open_app c json cfg false false a'.disk ≡ ok next)
        × (next.chain ≡ a.chain)
        × (next.wallet ≡ a'.wallet)
        × (key_pair c label next.wallet ≡ ok pair)
        × ((other : Text)
            → other ≢ label
            → lookup other next.wallet.keys ≡ lookup other a.wallet.keys)
  keygen_remembered cfg a disk pair shown apart opened generated reads keys bytes h =
      let (opens, _, on_disk, path) = open_app-parts c json cfg false false disk a opened in
      let ((made, r), wallet, disk', _) = created_by a shown h in
      let a' = (Commands.keygen c w json (label ∷ []) a).1 in
      let given =
        ap (λ g. create_saved json g w.no_key_dir w.key_writing label a.wallet a.disk) generated in
      let (found, _, pair_there, _, others) =
        open-create c json w.no_key_dir w.key_writing label a.wallet a.disk pair made reads keys
          bytes (sym (ap (λ t. t.0) given) ∙ r) in
      let same_wallet : a'.wallet
          ≡ (create_saved json (some pair) w.no_key_dir w.key_writing label a.wallet a.disk).1 =
        wallet ∙ ap (λ t. t.1) given in
      let same_disk : a'.disk
          ≡ (create_saved json (some pair) w.no_key_dir w.key_writing label a.wallet a.disk).2 =
        disk' ∙ ap (λ t. t.2) given in
      let chain_file : lookup cfg.data_file a'.disk ≡ lookup cfg.data_file disk =
        ap (lookup cfg.data_file) disk'
        ∙ create_other json w.generated w.no_key_dir w.key_writing label a.wallet a.disk
            cfg.data_file (λ e. apart (e ∙ path))
        ∙ ap (lookup cfg.data_file) on_disk in
      (
        record {
          cfg = cfg;
          chain = a.chain;
          store = cfg.data_file;
          disk = a'.disk;
          wallet = a'.wallet;
        },
        reopened cfg a'.disk a.chain a'.wallet
            (open_same c json cfg disk a'.disk chain_file ∙ opens)
            (cc (found, same_wallet, same_disk, path)),
        refl,
        refl,
        ap (key_pair c label) same_wallet ∙ pair_there,
        (λ other ne. ap (λ (k : Keystore). lookup other k.keys) same_wallet ∙ others other ne),
      )

  -- Where the keystore is the chain file, after a keygen that succeeds
  -- the file holds the keystore, and where JSON reads version 0 out of it, as Unmarshal does of an
  -- object without that field, no run opens any more.
  pub keygen_locks_out :
      (cfg : Config) (a : App) (disk : Disk) (shown : Shown) (file : File)
      → cfg.data_file ≡ cfg.key_file
      → open_app c json cfg false false disk ≡ ok a
      → (Commands.keygen c w json (label ∷ []) a).0 ≡ ok shown
      → let a' = (Commands.keygen c w json (label ∷ []) a).1 in
        let held = key_contents json a'.wallet.keys in
        json.decode (trim_prefix held byte_order_mark) ≡ some file
        → file.version ≡ pos 0
        → (lookup cfg.data_file a'.disk ≡ some held)
          × (open_app c json cfg false false a'.disk ≡ err (from_store (wrong_version (pos 0))))
  unfolding open_app open_chain Store.load Store.decode_file
  keygen_locks_out cfg a disk shown file same opened h reads zero =
      let (_, _, on_disk, path) = open_app-parts c json cfg false false disk a opened in
      let ((made, r), wallet, disk', _) = created_by a shown h in
      let (_, _, there) =
        succeeded json w.no_key_dir w.key_writing label a.wallet a.disk w.generated made r in
      let a' = (Commands.keygen c w json (label ∷ []) a).1 in
      let held : lookup cfg.data_file a'.disk ≡ some (key_contents json a'.wallet.keys) =
        cc (there, wallet, disk', path, same) in
      (held, ground (arith, held, reads, zero))
