-- ===== src/Cli/App.antt =====
-- open in internal/cli/cli.go, with Open of internal/wallet/wallet.go.
use toy_blockchain.Prelude.{Bool, none, some, [], Text, Result, ok, err}
use toy_blockchain.Crypto.{Crypto}
use toy_blockchain.Config.{Config}
use toy_blockchain.Chain.Mine.{Chain, LoadError, new_chain}
use toy_blockchain.Chain.Mine
use toy_blockchain.Store.{File, Json, Disk, StoreError}
use toy_blockchain.Store
use toy_blockchain.Wallet.{Keystore}
use toy_blockchain.Wallet.Saving.{KeyFile, absent, unreadable, not_json, keys_of, read_keys}

pub record App : Type 0 where
  pub cfg : Config
  pub chain : Chain
  pub store : Text
  pub disk : Disk
  pub wallet : Keystore

pub data OpenError : Type 0 where
  from_store : StoreError → OpenError
  from_chain : LoadError → OpenError
  bad_keystore : OpenError

unfoldable pub open_wallet : Text → KeyFile → Result OpenError Keystore
open_wallet path absent = ok (record { path = path; keys = [] })
open_wallet path unreadable = err bad_keystore
open_wallet path not_json = err bad_keystore
open_wallet path (keys_of keys) = ok (record { path = path; keys = keys })

-- Open; `no_access` is an error of ReadFile other than a missing file.
unfoldable pub open_keys : Json → Bool → Text → Disk → Result OpenError Keystore
open_keys json no_access path disk = open_wallet path (read_keys json no_access path disk)

unfoldable pub with_wallet : Json → Config → Bool → Disk → Chain → Result OpenError App
with_wallet json cfg no_key_access disk chain =
    elim (open_keys json no_key_access cfg.key_file disk) [
      | err e ↦ err e
      | ok wallet ↦
          ok (record {
            cfg = cfg;
            chain = chain;
            store = cfg.data_file;
            disk = disk;
            wallet = wallet;
          })
    ]

-- The chain of the file, or a new one where there is no file.
unfoldable pub open_chain : Crypto → Json → Config → Bool → Disk → Result OpenError Chain
open_chain c json cfg no_access disk = elim (Store.load json no_access cfg.data_file disk) [
  | err e ↦ err (from_store e)
  | ok none ↦ ok (new_chain c cfg)
  | ok (some file) ↦ elim (Mine.load c cfg file.blocks file.pending) [
    | err e ↦ err (from_chain e)
    | ok chain ↦ ok chain
  ]
]

unfoldable pub open_app : Crypto → Json → Config → Bool → Bool → Disk → Result OpenError App
open_app c json cfg no_access no_key_access disk = elim (open_chain c json cfg no_access disk) [
  | err e ↦ err e
  | ok chain ↦ with_wallet json cfg no_key_access disk chain
]
