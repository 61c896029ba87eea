-- ===== src/Tests/Api.antt =====
-- The API and the CLI at concrete inputs.
use mathlib.Core.Path.{subst}
use toy_blockchain.Prelude.{
  ltb_ℤ, ◌≡◌, ◌≢◌, ◌⊎◌, List, Text, Option, ◌++◌, refl, true, false, [], ◌∷◌, map, codes, text_eq,
  pos, none, some, ok, err,
}
use toy_blockchain.Go.Map.{lookup}
use toy_blockchain.Tests.Toy.{toy}
use toy_blockchain.Tests.Ledger.{two_accounts, two_accounts-IsSound}
use toy_blockchain.Tests.Chain.{three_queued, three_queued-IsConsistent, free, one_turn, now}
use toy_blockchain.Ledger.State.{accounts, supply}
use toy_blockchain.Block.Header.{new_block}
use toy_blockchain.Block.Genesis.{genesis}
use toy_blockchain.Miner.Search.{turn}
use toy_blockchain.Miner.Proofs.{IsMiner, mine_under-IsMiner}
use toy_blockchain.Chain.Validate
use toy_blockchain.Chain.Mine.{new_chain, tip, tip_of}
use toy_blockchain.Chain.Mining.{IsConsistent}
use toy_blockchain.Chain.Reach.{InTime}
use toy_blockchain.Store.{Json, Disk, version, contents}
use toy_blockchain.Wallet.{Keystore}
use toy_blockchain.Wallet.Saving.{complete}
use toy_blockchain.World.{World}
use toy_blockchain.Api.Server.{Server, reply, all_balances}
use toy_blockchain.Api.Handlers.{account_view, get_balances}
use toy_blockchain.Api.Router.{Request, Route, Endpoint, mine, run_endpoint, serve_all}
use toy_blockchain.Api.Listening.{interrupted}
use toy_blockchain.Api.Errors.{
  Call, write_header, write, pass_all, JsonErrors, Unrouted, errors_in_one_shape,
}
use toy_blockchain.Api.Effects.{IsSaved, Effect}
use toy_blockchain.Api.Agreement.{StoreFailed, run_endpoint-Effect, serve_all_agrees}
use toy_blockchain.Api.Balances.{get_balances_total}
use toy_blockchain.Cli.App.{App}
use toy_blockchain.Cli.Commands.{CliError, Shown, Session}
use toy_blockchain.Cli.Run.{Command, find_command, run_command, save_if}
use toy_blockchain.Cli.Persistence.{run_command_saves}

-- An encoder and decoder of the one file that holds the genesis block and no pending transaction.
abbrev genesis_json : Json
genesis_json = record {
  encode = λ file. codes "{}";
  decode = λ raw. some (record { version = version; blocks = genesis toy ∷ []; pending = [] });
  encode_keys = λ keys. codes "{}";
  decode_keys = λ raw. some [];
}

abbrev disk : Disk
disk = (codes "data/chain.json", codes "{}\n") ∷ []

abbrev outside : World
outside = record {
  now_nano = now;
  now_unix = now;
  search = one_turn;
  generated = none;
  no_key_dir = false;
  key_writing = complete;
  faults = record { mkdir = false; write = false; partial = []; rename = false };
}

abbrev no_keys : Keystore
no_keys = record { path = codes "data/keys.json"; keys = [] }

abbrev server : Server
server = record {
  chain = three_queued;
  store = codes "data/chain.json";
  disk = disk;
  wallet = no_keys;
  cfg = free;
}

abbrev post_mine : Request
post_mine = record {
  method = codes "POST";
  path = codes "mine" ∷ [];
  redirect = none;
  key_body = none;
  faucet_body = none;
  transfer_body = none;
}

miner : IsMiner toy one_turn
miner = mine_under-IsMiner toy (turn 0 ∷ []) (pos 1)

in_time : InTime now three_queued
unfolding new_chain tip tip_of genesis new_block
in_time t e =
    let same : genesis toy ≡ t = cc in subst (λ b. ltb_ℤ now b.timestamp ≡ false) same refl

two_files : codes "data/chain.json" ≢ codes "data/keys.json"
two_files e = cc

server-IsSaved : IsSaved genesis_json server
unfolding lookup text_eq
server-IsSaved = refl

run_endpoint-Effect_example :
    let (a, s) = run_endpoint toy genesis_json outside mine [] post_mine server in
    (true ≡ true → Effect genesis_json server a s)
    × (true ≡ false
        → (s.chain ≡ three_queued)
          × ((path : Text) → path ≢ codes "data/keys.json" → lookup path s.disk ≡ lookup path disk))
    × (true ≡ false → Endpoint.mine ≢ Endpoint.create_key → s ≡ server)
run_endpoint-Effect_example =
    run_endpoint-Effect toy genesis_json outside miner post_mine server three_queued-IsConsistent
      mine []

serve_all_agrees_example :
    IsConsistent toy (serve_all toy genesis_json ((outside, post_mine) ∷ []) server).1.chain
    × (Validate.validate toy
          (serve_all toy genesis_json ((outside, post_mine) ∷ []) server).1.chain.blocks
        ≡ ok tt)
    × (IsSaved genesis_json (serve_all toy genesis_json ((outside, post_mine) ∷ []) server).1
        ⊎ StoreFailed (serve_all toy genesis_json ((outside, post_mine) ∷ []) server).0)
serve_all_agrees_example =
    serve_all_agrees toy genesis_json ((outside, post_mine) ∷ []) server (miner, in_time, tt)
      three_queued-IsConsistent two_files server-IsSaved

abbrev rich_server : Server
rich_server = record server { chain = record three_queued { state = two_accounts } }

get_balances_total_example :
    get_balances toy rich_server
    ≡ reply 200 (
        all_balances
          (map (account_view toy rich_server) (accounts two_accounts))
          (supply two_accounts))
get_balances_total_example = get_balances_total toy rich_server two_accounts-IsSound

abbrev app : App
app = record {
  cfg = free;
  chain = three_queued;
  store = codes "data/chain.json";
  disk = disk;
  wallet = no_keys;
}

abbrev session : Session
session = record {
  world = outside;
  search_with = λ workers. one_turn;
  requests = [];
  ending = interrupted true;
}

mine_is_not_serve : Command.mine ≢ Command.serve
mine_is_not_serve e = cc

run_command_saves_example :
    let (r, a) =
      save_if genesis_json session true
        (run_command toy genesis_json session Command.mine [] app) in
    ((shown : Shown) × (r ≡ ok shown)
      × (true ≡ true)
      × IsConsistent toy a.chain
      × (lookup app.store a.disk
          ≡ some (contents genesis_json a.chain.blocks a.chain.pool.pending)))
    ⊎ ((lookup app.store a.disk ≡ lookup app.store disk)
        × (((e : CliError) × (r ≡ err e)) ⊎ (true ≡ false)))
unfolding find_command text_eq
run_command_saves_example =
    run_command_saves toy genesis_json session miner app three_queued-IsConsistent in_time two_files
      (codes "mine") true Command.mine refl mine_is_not_serve []

-- A table with its first row at the end.
abbrev turned : List Route → List Route
turned [] = []
turned (q ∷ rs) = rs ++ q ∷ []

abbrev get_seventh : Request
get_seventh = record {
  method = codes "GET";
  path = codes "blocks" ∷ codes "7" ∷ [];
  redirect = none;
  key_body = none;
  faucet_body = none;
  transfer_body = none;
}

-- What the router answers to an unknown path.
abbrev router_404 : List Call
router_404 = write_header 404 ∷ write (codes "404 page not found\n") ∷ []

abbrev quoted : Text → Option Text
quoted t = some (b'"' ∷ (t ++ b'"' ∷ []))

errors_in_one_shape_example :
    let out =
      pass_all quoted router_404 (record { content_type = codes "text/plain"; rewrite = false }) in
    JsonErrors out (codes "text/plain")
    × ((Unrouted router_404 (codes "text/plain") × (out ≡ router_404))
        ⊎ (¬ Unrouted router_404 (codes "text/plain")))
errors_in_one_shape_example = errors_in_one_shape quoted router_404 (codes "text/plain")
