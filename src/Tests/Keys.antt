-- ===== src/Tests/Keys.antt =====
-- The keystore file at concrete inputs.
use toy_blockchain.Prelude.{
  pos, ◌≡◌, ◌≢◌, ◌⊎◌, refl, true, false, none, some, [], ◌∷◌, Text, codes, text_eq, ok, err, All,
  arith,
}
use toy_blockchain.Go.Hex.{IsByte}
use toy_blockchain.Go.Map.{lookup, insert}
use toy_blockchain.Ledger.Signature.{KeyPair, address, private_hex}
use toy_blockchain.Store.{Disk}
use toy_blockchain.Tests.Json.{toy_json, toy_json-keys}
use toy_blockchain.Tests.Ledger.{pair, pair-IsKeyPair}
use toy_blockchain.Tests.Toy.{toy, replicate-IsByte}
use toy_blockchain.Wallet.{Keystore, WalletError, not_saved, create, key_pair, resolve}
use toy_blockchain.Wallet.Saving.{complete, torn, key_contents, save_keys, create_saved}
use toy_blockchain.Cli.App.{open_keys}
use toy_blockchain.Cli.Keys.{create_file}
use toy_blockchain.Cli.Remembering.{keygen_remembered, keygen_locks_out}
use toy_blockchain.Cli.App.{App, from_store, open_app, open_chain, open_wallet, with_wallet}
use toy_blockchain.Cli.Commands.{keygen, new_key}
use toy_blockchain.Config.{Config, default}
use toy_blockchain.Chain.Mine.{new_chain}
use toy_blockchain.Store
use toy_blockchain.Store.{Json, wrong_version}
use toy_blockchain.Tests.Chain.{one_turn}
use toy_blockchain.World.{World}
use toy_blockchain.Wallet.Saving.{read_keys}
use toy_blockchain.Cli.StoredKeys.{open-create}

abbrev empty : Keystore
empty = record { path = codes "keys.json"; keys = [] }

pair-bytes : All IsByte pair.private_key
pair-bytes = replicate-IsByte 64 7 (omega arith)

open-create_example :
    let (r, k, disk) = create_saved toy_json (some pair) false complete (codes "ann") empty [] in
    (open_keys toy_json false (codes "keys.json") disk ≡ ok k)
    × (pair ≡ pair)
    × (key_pair toy (codes "ann") k ≡ ok pair)
    × (resolve toy (codes "ann") k ≡ address toy pair)
    × ((other : Text) → other ≢ codes "ann" → lookup other k.keys ≡ lookup other empty.keys)
unfolding create_saved save_keys create lookup text_eq
open-create_example =
    open-create toy toy_json false complete (codes "ann") empty [] pair pair
      (toy_json-keys (create (some pair) true (codes "ann") empty).1.keys) pair-IsKeyPair pair-bytes
      refl

abbrev held : Disk
held = (codes "keys.json", codes "old") ∷ []

create_file_example :
    let (r, k, disk) =
      create_saved toy_json (some pair) false (torn (codes "{")) (codes "ann") empty held in
    ((made : KeyPair) × (r ≡ ok made)
      × (some pair ≡ some made)
      × (codes "ann" ≢ [])
      × (lookup (codes "ann") empty.keys ≡ none)
      × (lookup (codes "keys.json") disk
          ≡ some (key_contents toy_json (insert (codes "ann") (private_hex made) empty.keys))))
    ⊎ (((e : WalletError) × (r ≡ err e) × (disk ≡ held))
        ⊎ ((part : Text) × (torn (codes "{") ≡ torn part)
            × (r ≡ err not_saved)
            × (lookup (codes "keys.json") disk ≡ some part)))
create_file_example =
    create_file toy_json false (torn (codes "{")) (codes "ann") empty held (some pair)

-- keygen at a first run.
abbrev outside : World
outside = record {
  now_nano = pos 1;
  now_unix = pos 1;
  search = one_turn;
  generated = some pair;
  no_key_dir = false;
  key_writing = complete;
  faults = record { mkdir = false; write = false; partial = []; rename = false };
}

abbrev first_app : Config → App
first_app cfg = record {
  cfg = cfg;
  chain = new_chain toy cfg;
  store = cfg.data_file;
  disk = [];
  wallet = record { path = cfg.key_file; keys = [] };
}

opened_first :
    (json : Json) (cfg : Config) → open_app toy json cfg false false [] ≡ ok (first_app cfg)
unfolding open_app open_chain Store.load lookup with_wallet open_keys read_keys open_wallet
opened_first json cfg = refl

keygen_ok :
    (json : Json) (cfg : Config)
    → (keygen toy outside json (codes "ann" ∷ []) (first_app cfg)).0
      ≡ ok (new_key (codes "ann") (address toy pair))
unfolding keygen create_saved save_keys create lookup text_eq
keygen_ok json cfg = refl

two_files : default.data_file ≢ default.key_file
two_files e = cc

keygen_remembered_example :
    let a = (keygen toy outside toy_json (codes "ann" ∷ []) (first_app default)).1 in
    (next : App) × (open_app toy toy_json default false false a.disk ≡ ok next)
    × (next.chain ≡ new_chain toy default)
    × (next.wallet ≡ a.wallet)
    × (key_pair toy (codes "ann") next.wallet ≡ ok pair)
    × ((other : Text) → other ≢ codes "ann" → lookup other next.wallet.keys ≡ lookup other [])
keygen_remembered_example =
    keygen_remembered toy toy_json outside (codes "ann") default (first_app default) [] pair
      (new_key (codes "ann") (address toy pair)) two_files (opened_first toy_json default) refl
      (toy_json-keys (create (some pair) true (codes "ann") (first_app default).wallet).1.keys)
      pair-IsKeyPair pair-bytes (keygen_ok toy_json default)

-- A decoder that finds no version in what the keystore holds.
abbrev other_json : Json
other_json = record toy_json {
  decode = λ raw. some (record { version = pos 0; blocks = []; pending = [] });
}

abbrev one_file : Config
one_file = record default { key_file = default.data_file }

keygen_locks_out_example :
    let a = (keygen toy outside other_json (codes "ann" ∷ []) (first_app one_file)).1 in
    (lookup one_file.data_file a.disk ≡ some (key_contents other_json a.wallet.keys))
    × (open_app toy other_json one_file false false a.disk
        ≡ err (from_store (wrong_version (pos 0))))
keygen_locks_out_example =
    keygen_locks_out toy other_json outside (codes "ann") one_file (first_app one_file) []
      (new_key (codes "ann") (address toy pair))
      (record { version = pos 0; blocks = []; pending = [] }) refl
      (opened_first other_json one_file) (keygen_ok other_json one_file) refl refl
