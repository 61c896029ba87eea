-- ===== src/Tests/Store.antt =====
-- The store, the wallet and the .env file at concrete inputs.
use toy_blockchain.Prelude.{Text, All, ◌≡◌, ◌⊎◌, true, false, [], ◌∷◌, codes, some, ok, err}
use toy_blockchain.Go.Map.{lookup}
use toy_blockchain.Config.{Config, resolve}
use toy_blockchain.Config.Bounds.{IsUsable}
use toy_blockchain.Config.Load.{load, variables, load_layers}
use toy_blockchain.DotEnv.{Opened, lines}
use toy_blockchain.Store
use toy_blockchain.Store.{
  File, Json, Disk, Faults, StoreError, version, contents, save, save_atomic, tmp_path,
}

-- An encoder and decoder of the one file that the test writes.
abbrev toy_json : Json
toy_json = record {
  encode = λ file. codes "{}";
  decode = λ raw. some (record { version = version; blocks = []; pending = [] });
  encode_keys = λ keys. codes "{}";
  decode_keys = λ raw. some [];
}

abbrev disk : Disk
disk = (codes "chain.json", codes "old") ∷ []

abbrev smooth : Faults
smooth = record { mkdir = false; write = false; partial = []; rename = false }

abbrev full_disk : Faults
full_disk = record { mkdir = false; write = true; partial = codes "{"; rename = false }

save_atomic_example :
    (((save toy_json full_disk (codes "chain.json") [] [] disk).0 ≡ ok tt)
      × (lookup (codes "chain.json") (save toy_json full_disk (codes "chain.json") [] [] disk).1
          ≡ some (contents toy_json [] [])))
    ⊎ ((e : StoreError) × ((save toy_json full_disk (codes "chain.json") [] [] disk).0 ≡ err e)
        × (lookup (codes "chain.json") (save toy_json full_disk (codes "chain.json") [] [] disk).1
            ≡ lookup (codes "chain.json") disk))
save_atomic_example = save_atomic toy_json full_disk (codes "chain.json") [] [] disk

abbrev environment : Disk
environment = (codes "TBC_DIFFICULTY", codes "2") ∷ []

abbrev settings_file : Opened
settings_file = lines (codes "TBC_DIFFICULTY=7" ∷ codes "TBC_MINER_ADDRESS = 'ann'" ∷ []) false

load_layers_example :
    let (r, left) = load settings_file environment in
    ((cfg : Config) → r ≡ ok cfg → IsUsable cfg)
    × ((k v : Text) → lookup k environment ≡ some v → lookup k left ≡ some v)
    × ((cfg : Config)
        → All (λ k. (v : Text) × (lookup k environment ≡ some v)) variables
        → r ≡ ok cfg
        → resolve environment ≡ ok cfg)
load_layers_example = load_layers settings_file environment
