-- ===== src/Tests/Cli.antt =====
-- A run of the program on a chain file that is not there yet.
use mathlib.Core.Path.{subst}
use toy_blockchain.Prelude.{
  ltb_ℤ, ◌≡◌, ◌≢◌, refl, sym, ap, true, false, List, [], ◌∷◌, codes, text_eq, pos, none, some, ok,
  Text,
}
use toy_blockchain.Tests.Toy.{toy}
use toy_blockchain.Tests.Chain.{one_turn, now}
use toy_blockchain.Tests.Json.{toy_json, toy_json-Fits}
use toy_blockchain.Config.{Config, default, validate}
use toy_blockchain.Go.Map.{lookup}
use toy_blockchain.Block.Genesis.{genesis}
use toy_blockchain.Block.Header.{new_block}
use toy_blockchain.Miner.Search.{turn}
use toy_blockchain.Miner.Proofs.{IsMiner, mine_under-IsMiner}
use toy_blockchain.Chain.Mine.{Chain, new_chain, tip, tip_of}
use toy_blockchain.Chain.Reach.{InTime}
use toy_blockchain.World.{World}
use toy_blockchain.Api.Router.{Request}
use toy_blockchain.Api.Listening.{interrupted}
use toy_blockchain.Store
use toy_blockchain.Store.{Disk}
use toy_blockchain.Cli.App.{App, open_chain, open_app, with_wallet, open_wallet, open_keys}
use toy_blockchain.Wallet.Saving.{complete, read_keys}
use toy_blockchain.Cli.Flags.{parse_flags, parse, read_argument}
use toy_blockchain.Cli.Lasting.{Invocation, IsRegular, ReadsBack, OpensOn, run_all, runs_last}

abbrev outside : World
outside = record {
  now_nano = now;
  now_unix = now;
  search = one_turn;
  generated = none;
  no_key_dir = false;
  key_writing = complete;
  faults = record { mkdir = false; write = false; partial = []; rename = false };
}

abbrev post_faucet : Request
post_faucet = record {
  method = codes "POST";
  path = codes "faucet" ∷ [];
  redirect = none;
  key_body = none;
  faucet_body = some (codes "bob", pos 5);
  transfer_body = none;
}

-- `serve`, which handles one request to the faucet and is then interrupted.
abbrev run_server : Invocation
run_server = record {
  session = record {
    world = outside;
    search_with = λ workers. one_turn;
    requests = (outside, post_faucet) ∷ [];
    ending = interrupted true;
  };
  no_access = false;
  no_key_access = false;
  args = codes "serve" ∷ [];
}

toy_reads : ReadsBack toy toy_json
toy_reads ch inv = toy_json-Fits ch.blocks ch.pool.pending

server_flags :
    (cfg : Config) (rest : List Text)
    → parse_flags run_server.args default ≡ ok (cfg, rest)
    → cfg ≡ default
unfolding parse_flags parse read_argument validate text_eq
server_flags cfg rest h = cc

on_genesis : (ch : Chain) → ch.blocks ≡ genesis toy ∷ [] → InTime now ch
unfolding tip tip_of genesis new_block
on_genesis ch h t e =
    let same : genesis toy ≡ t = cc (h, e) in subst (λ b. ltb_ℤ now b.timestamp ≡ false) same refl

opened_first :
    (a : App)
    → open_app toy toy_json default false false [] ≡ ok a
    → a.chain.blocks ≡ genesis toy ∷ []
unfolding open_app open_chain Store.load lookup new_chain with_wallet open_wallet open_keys
    read_keys
opened_first a o = cc

miner : IsMiner toy one_turn
miner = mine_under-IsMiner toy (turn 0 ∷ []) (pos 1)

run_server-on_time :
    (cfg : Config) (rest : List Text) (a : App)
    → parse_flags run_server.args default ≡ ok (cfg, rest)
    → open_app toy toy_json cfg false false [] ≡ ok a
    → InTime now a.chain
run_server-on_time cfg rest a p o = on_genesis a.chain (
    opened_first a
      (subst (λ g. open_app toy toy_json g false false [] ≡ ok a) (server_flags cfg rest p) o))

two_files : default.data_file ≢ default.key_file
two_files e = cc

run_server-IsRegular : IsRegular toy toy_json default run_server []
run_server-IsRegular = record {
  miner = miner;
  same_file = λ cfg rest p. ap (λ g. g.data_file) (server_flags cfg rest p);
  apart = λ cfg rest p.
      subst (λ (g : Config). g.data_file ≢ g.key_file) (sym (server_flags cfg rest p)) two_files;
  on_time = run_server-on_time;
  served = λ cfg rest a p o. (miner, run_server-on_time cfg rest a p o, tt);
}

opened_at_first : open_chain toy toy_json default false [] ≡ ok (new_chain toy default)
unfolding open_chain Store.load lookup
opened_at_first = refl

runs_last_example :
    OpensOn toy toy_json default
      (run_all toy toy_json default (run_server ∷ []) [])
      (genesis toy ∷ [])
unfolding new_chain
runs_last_example =
    runs_last toy toy_json toy_reads default (run_server ∷ []) [] (new_chain toy default)
      opened_at_first (run_server-IsRegular, tt)
