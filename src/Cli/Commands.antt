-- ===== src/Cli/Commands.antt =====
-- internal/cli/commands.go. A command returns what it prints, as values, or its error, beside the
-- app as it leaves it; Cli.Usage has the text of some.
use toy_blockchain.Prelude.{
  ℕ, zero, suc, none, some, List, [], ◌∷◌, ◌++◌, ⊤, Text, map, length, ◌==◌, if◌then◌else◌, ℤ, pos,
  negsuc, ltb_ℤ, Result, ok, err,
}
use toy_blockchain.Crypto.{Crypto}
use toy_blockchain.Config.{atoi, max_difficulty}
use toy_blockchain.Ledger.Transaction.{LedgerError, new_transfer}
use toy_blockchain.Ledger.Signature.{address, sign}
use toy_blockchain.Ledger.State.{balance, accounts}
use toy_blockchain.Block.Header.{Block}
use toy_blockchain.Miner.Search.{MinerError, MinerResult}
use toy_blockchain.Chain.Validate.{Stop}
use toy_blockchain.Chain.Mine.{MineError, tip, validate_chain, add_transaction}
use toy_blockchain.Chain.Mine
use toy_blockchain.Store.{Json, StoreError}
use toy_blockchain.Wallet.{WalletError, Entry, key_pair, entries, resolve}
use toy_blockchain.Wallet.Saving.{create_saved}
use toy_blockchain.World.{World}
use toy_blockchain.Api.Server.{Server, AccountView, TxView, tx_view}
use toy_blockchain.Api.Handlers.{account_view, total_of}
use toy_blockchain.Api.Router.{Request}
use toy_blockchain.Api.Listening.{ServeError, Ending, new_server, listen_and_serve}
use toy_blockchain.Cli.Flags.{FlagError}
use toy_blockchain.Cli.App.{App, OpenError}
use toy_blockchain.Cli.Bench.{Sample, run_bench}

pub data CliError : Type 0 where
  in_flags : FlagError → CliError
  in_opening : OpenError → CliError
  no_command : CliError
  unknown_command bad_amount bad_bench : Text → CliError
  wrong_arguments too_hard : CliError
  in_serving : ServeError → CliError
  in_wallet : WalletError → CliError
  in_ledger : LedgerError → CliError
  in_mining : MineError → CliError
  in_chain : Stop → CliError
  in_bench : MinerError → CliError
  in_store : StoreError → CliError

pub data Shown : Type 0 where
  new_key : Text → Text → Shown
  key_lines : List AccountView → Shown
  minted : Text → ℤ → Shown
  sent : TxView → Shown
  mined : MinerResult → Shown
  blocks : List Block → Shown
  valid : ℕ → Shown
  balance_line : Text → ℤ → Shown
  balance_lines : List AccountView → ℤ → Shown
  samples : List Sample → Shown
  pending_lines : List TxView → Shown
  stopped : Shown

-- What a run gets from outside besides its world: the miner of bench, and for serve the requests
-- that it handles, and how it ends.
pub record Session : Type 0 where
  pub world : World
  pub search_with : ℤ → Block → Result MinerError MinerResult
  pub requests : List (World × Request)
  pub ending : Ending

abbrev pub Outcome : Type 0
Outcome = Result CliError Shown × App

-- wantArgs
unfoldable pub want_args : List Text → ℕ → Result CliError ⊤
want_args args n = if length args == n then ok tt else err wrong_arguments

-- parseAmount: strconv.ParseInt in base 10.
unfoldable pub parse_amount : Text → Result CliError ℤ
parse_amount s = elim (atoi s) [ none ↦ err (bad_amount s) | some n ↦ ok n ]

-- The API server on what the app has open, and the app after it.
abbrev pub server_of : App → Server
server_of a = new_server a.cfg a.chain a.store a.disk a.wallet

abbrev pub app_of : Server → App
app_of s = record {
  chain = s.chain;
  store = s.store;
  disk = s.disk;
  wallet = s.wallet;
  cfg = s.cfg;
}

module _ (c : Crypto) (w : World) where
  unfoldable pub keygen : Json → List Text → App → Outcome
  keygen json (label ∷ []) a =
      let (r, wallet, disk) =
        create_saved json w.generated w.no_key_dir w.key_writing label a.wallet a.disk in
      let a' = record a { wallet = wallet; disk = disk } in
      elim r [
        | err e ↦ (err (in_wallet e), a')
        | ok pair ↦ (ok (new_key label (address c pair)), a')
      ]
  keygen json _ a = (err wrong_arguments, a)

  unfoldable pub faucet : List Text → App → Outcome
  faucet (to ∷ amount ∷ []) a = elim (parse_amount amount) [
    | err e ↦ (err e, a)
    | ok n ↦
        let address = resolve c to a.wallet in
        let (r, chain) = Mine.faucet c address n w.now_nano a.chain in
        let a' = record a { chain = chain } in
        elim r [ err e ↦ (err (in_ledger e), a') | ok _ ↦ (ok (minted address n), a') ]
  ]
  faucet _ a = (err wrong_arguments, a)

  unfoldable pub send : List Text → App → Outcome
  send (from ∷ to ∷ amount ∷ []) a = elim (parse_amount amount) [
    | err e ↦ (err e, a)
    | ok n ↦ elim (key_pair c from a.wallet) [
      | err e ↦ (err (in_wallet e), a)
      | ok sender ↦
          let tx = sign c sender (new_transfer [] (resolve c to a.wallet) n w.now_nano) in
          let (r, chain) = add_transaction c tx a.chain in
          let a' = record a { chain = chain } in
          elim r [ err e ↦ (err (in_ledger e), a') | ok _ ↦ (ok (sent (tx_view c tx)), a') ]
    ]
  ]
  send _ a = (err wrong_arguments, a)

  unfoldable pub mine : List Text → App → Outcome
  mine [] a =
      let (r, chain) = Mine.mine c w.search w.now_nano w.now_unix a.chain in
      let a' = record a { chain = chain } in
      elim r [ err e ↦ (err (in_mining e), a') | ok result ↦ (ok (mined result), a') ]
  mine _ a = (err wrong_arguments, a)

module _ (c : Crypto) where
  unfoldable pub keys : List Text → App → Result CliError Shown
  keys [] a = elim (entries c a.wallet) [
    | err e ↦ err (in_wallet e)
    | ok l ↦ ok (
        key_lines (
          map
            (λ (e : Entry). record {
              address = e.address;
              label = e.label;
              balance = balance a.chain.state e.address;
            })
            l))
  ]
  keys _ a = err wrong_arguments

  unfoldable pub validate : List Text → App → Result CliError Shown
  validate [] a = elim (validate_chain c a.chain) [
    | err e ↦ err (in_chain e)
    | ok _ ↦ ok (valid (length a.chain.blocks))
  ]
  validate _ a = err wrong_arguments

  unfoldable pub show_balance : List Text → App → Result CliError Shown
  show_balance [] a =
      let l = accounts a.chain.state in
      ok (balance_lines (map (account_view c (server_of a)) l) (total_of (pos 0) l))
  show_balance (name ∷ []) a =
      let address = resolve c name a.wallet in
      ok (balance_line address (balance a.chain.state address))
  show_balance _ a = err wrong_arguments

  unfoldable pub pending : List Text → App → Result CliError Shown
  pending [] a = ok (pending_lines (map (tx_view c) a.chain.pool.pending))
  pending _ a = err wrong_arguments

-- The height of the tip, printed last, is left out.
unfoldable pub print : List Text → App → Result CliError Shown
print [] a = ok (blocks a.chain.blocks)
print _ a = err wrong_arguments

-- One argument of bench, or its default where it is missing.
unfoldable pub bench_argument : ℤ → List Text → Result CliError ℤ
bench_argument default [] = ok default
bench_argument default (arg ∷ args) = elim (atoi arg) [
  | none ↦ err (bad_bench arg)
  | some n ↦ if ltb_ℤ n (pos 1) then err (bad_bench arg) else ok n
]

abbrev pub rest_of : List Text → List Text
rest_of [] = []
rest_of (arg ∷ args) = args

-- 1 to n
abbrev pub up_to : ℕ → List ℤ
up_to zero = []
up_to (suc n) = up_to n ++ pos (suc n) ∷ []

abbrev pub count_of : ℤ → ℕ
count_of (pos n) = n
count_of (negsuc n) = 0

module _ (c : Crypto) where
  unfoldable pub bench : Session → List Text → Result CliError Shown
  bench x args = elim (bench_argument (pos 5) args) [
    | err e ↦ err e
    | ok most ↦ elim (bench_argument (pos 3) (rest_of args)) [
      | err e ↦ err e
      | ok runs ↦ elim (bench_argument (pos 1) (rest_of (rest_of args))) [
        | err e ↦ err e
        | ok workers ↦
            if ltb_ℤ max_difficulty most
            then err too_hard
            else (let (l, r) = run_bench c x.search_with workers (up_to (count_of most)) runs in
                elim r [ err e ↦ err (in_bench e) | ok _ ↦ ok (samples l) ])
      ]
    ]
  ]

  unfoldable pub serve : Json → Session → List Text → App → Outcome
  serve json x [] a =
      let (r, s) = listen_and_serve c json x.ending x.requests (server_of a) in
      elim r [ none ↦ (ok stopped, app_of s) | some e ↦ (err (in_serving e), app_of s) ]
  serve json x _ a = (err wrong_arguments, a)
