-- ===== src/Wallet/Saving.antt =====
-- The keystore on the disk: the reading of Open, save, and Create with its save, in
-- internal/wallet/wallet.go. The disk is the map of Store, in which paths that differ as texts are
-- different files; what the file system answers is an argument. A file that holds the value null, which
-- leaves a nil map, is not told from one that holds no key.
use toy_blockchain.Prelude.{
  Bool, true, false, Option, none, some, [], ◌∷◌, ◌++◌, Text, if◌then◌else◌, Result, ok, err,
}
use toy_blockchain.Go.Map.{Map, lookup, insert}
use toy_blockchain.Ledger.Signature.{KeyPair}
use toy_blockchain.Store.{Json, Disk}
use toy_blockchain.Wallet.{Keystore, WalletError, create}

-- What reading the keystore file gives: no file, an error, no JSON, or its keys.
pub data KeyFile : Type 0 where
  absent unreadable not_json : KeyFile
  keys_of : Map Text → KeyFile

-- os.WriteFile truncates the file first: it may write all, fail to open the file, or stop half-way
-- and leave what it has written.
pub data Writing : Type 0 where
  complete not_opened : Writing
  torn : Text → Writing

module _ (json : Json) where
  unfoldable pub read_keys : Bool → Text → Disk → KeyFile
  read_keys no_access path disk = elim (lookup path disk) [
    | none ↦ absent
    | some raw ↦
        if no_access
        then unreadable
        else (elim (json.decode_keys raw) [ none ↦ not_json | some keys ↦ keys_of keys ])
  ]

  abbrev pub key_contents : Map Text → Text
  key_contents keys = json.encode_keys keys ++ b'\n' ∷ []

  -- save: whether it returns nil, and the disk.
  unfoldable pub save_keys : Bool → Writing → Keystore → Disk → Bool × Disk
  save_keys no_dir writing k disk = if no_dir then (false, disk) else elim writing [
    | complete ↦ (true, insert k.path (key_contents k.keys) disk)
    | not_opened ↦ (false, disk)
    | torn part ↦ (false, insert k.path part disk)
  ]

  -- Create with its save: nothing is written where it returns before it.
  unfoldable pub create_saved :
      Option KeyPair
      → Bool
      → Writing
      → Text
      → Keystore
      → Disk
      → Result WalletError KeyPair × Keystore × Disk
  create_saved generated no_dir writing label k disk = elim (create generated true label k).0 [
    | err e ↦ (err e, k, disk)
    | ok pair ↦
        let k' = (create generated true label k).1 in
        let (saved, disk') = save_keys no_dir writing k' disk in
        ((create generated saved label k).0, (create generated saved label k).1, disk')
  ]
