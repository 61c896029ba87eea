-- ===== src/Api/Handlers.antt =====
-- internal/api/handlers.go. The body of a request is what readJSON decodes, or none where it fails.
use toy_blockchain.Prelude.{
  ℕ, ◌-◌, ◌^◌, Option, none, some, List, [], ◌∷◌, Text, map, length, leb, get_elem?, if◌then◌else◌,
  ℤ, pos, ◌+64◌, ok, err,
}
use toy_blockchain.Crypto.{Crypto}
use toy_blockchain.Config.{read_number}
use toy_blockchain.Ledger.Transaction.{new_transfer}
use toy_blockchain.Ledger.Signature.{address, sign}
use toy_blockchain.Ledger.State.{Account, balance, accounts}
use toy_blockchain.Chain.Validate.{failed, panicked}
use toy_blockchain.Chain.Mine.{Chain, MineError, tip, validate_chain, add_transaction}
use toy_blockchain.Chain.Mine
use toy_blockchain.Store.{Json}
use toy_blockchain.Wallet.{Entry, key_pair, entries, label_for}
use toy_blockchain.Wallet.Saving.{create_saved}
use toy_blockchain.World.{World}
use toy_blockchain.Api.Server.{
  Server, AccountView, status_of, whole_chain, one_block, valid_chain, broken_chain, all_balances,
  one_balance, queued, key_list, created, minting, sending, mined, bad_body, bad_height, no_block,
  from_wallet, from_ledger, from_miner, from_store, Reply, reply, aborted, write_error, persist,
  account, tx_view,
}

unfoldable pub health : Server → Reply
health s = elim (tip s.chain) [
  | none ↦ aborted
  | some b ↦
      reply 200
        (status_of b.height (length s.chain.blocks) (length s.chain.pool.pending) s.cfg.difficulty)
]

unfoldable pub get_chain : Server → Reply
get_chain s = elim (tip s.chain) [
  | none ↦ aborted
  | some b ↦ reply 200 (whole_chain b.height s.chain.blocks)
]

-- strconv.ParseUint in base 10: digits only, within uint64.
unfoldable pub parse_uint : Text → Option ℕ
parse_uint t = elim (read_number t) [
  | none ↦ none
  | some n ↦ if leb n (2 ^ 64 - 1) then some n else none
]

unfoldable pub get_block : Text → Server → Reply
get_block height s = elim (parse_uint height) [
  | none ↦ write_error 400 bad_height
  | some h ↦ elim (get_elem? s.chain.blocks h) [
    | some b ↦ reply 200 (one_block b)
    | none ↦ elim (tip s.chain) [ none ↦ aborted | some b ↦ write_error 404 (no_block h b.height) ]
  ]
]

-- The loop of `getBalances` over the sum, on int64.
unfoldable pub total_of : ℤ → List Account → ℤ
total_of total [] = total
total_of total (a ∷ l) = total_of (total +64 a.balance) l

-- What the handlers do after a call that changed the chain: save it, and answer.
unfoldable pub then_persist : Json → World → Reply → Server → Reply × Server
then_persist json w answer s =
    let (r, s') = persist json w.faults s in
    elim r [ err e ↦ (write_error 500 (from_store e), s') | ok _ ↦ (answer, s') ]

module _ (c : Crypto) where
  unfoldable pub validate : Server → Reply
  validate s = elim (validate_chain c s.chain) [
    | ok _ ↦ reply 200 (valid_chain (length s.chain.blocks))
    | err (failed ve) ↦ reply 409 (broken_chain ve)
    | err panicked ↦ aborted
  ]

  abbrev pub account_view : Server → Account → AccountView
  account_view s a = record {
    address = a.address;
    label = label_for c a.address s.wallet;
    balance = a.balance;
  }

  abbrev pub entry_view : Server → Entry → AccountView
  entry_view s e = record {
    address = e.address;
    label = e.label;
    balance = balance s.chain.state e.address;
  }

  unfoldable pub get_balances : Server → Reply
  get_balances s =
      let l = accounts s.chain.state in
      reply 200 (all_balances (map (account_view s) l) (total_of (pos 0) l))

  unfoldable pub get_balance : Text → Server → Reply
  get_balance name s =
      let (address, label) = account c s name in
      reply 200 (
        one_balance
          (record { address = address; label = label; balance = balance s.chain.state address }))

  unfoldable pub get_pending : Server → Reply
  get_pending s = reply 200 (queued (map (tx_view c) s.chain.pool.pending))

  unfoldable pub list_keys : Server → Reply
  list_keys s = elim (entries c s.wallet) [
    | err e ↦ write_error 500 (from_wallet e)
    | ok l ↦ reply 200 (key_list (map (entry_view s) l))
  ]

  unfoldable pub create_key : Json → World → Option Text → Server → Reply × Server
  create_key json w none s = (write_error 400 bad_body, s)
  create_key json w (some label) s =
      let (r, wallet, disk) =
        create_saved json w.generated w.no_key_dir w.key_writing label s.wallet s.disk in
      let s' = record s { wallet = wallet; disk = disk } in
      elim r [
        | err e ↦ (write_error 409 (from_wallet e), s')
        | ok pair ↦ (reply 201 (created label (address c pair)), s')
      ]

  unfoldable pub faucet : Json → World → Option (Text × ℤ) → Server → Reply × Server
  faucet json w none s = (write_error 400 bad_body, s)
  faucet json w (some (to, amount)) s =
      let (address, label) = account c s to in
      let (r, chain) = Mine.faucet c address amount w.now_nano s.chain in
      let s' = record s { chain = chain } in
      elim r [
        | err e ↦ (write_error 400 (from_ledger e), s')
        | ok _ ↦ then_persist json w (reply 202 (minting address label amount)) s'
      ]

  unfoldable pub create_transaction :
      Json → World → Option (Text × Text × ℤ) → Server → Reply × Server
  create_transaction json w none s = (write_error 400 bad_body, s)
  create_transaction json w (some (from, to, amount)) s = elim (key_pair c from s.wallet) [
    | err e ↦ (write_error 404 (from_wallet e), s)
    | ok sender ↦
        let tx = sign c sender (new_transfer [] (account c s to).0 amount w.now_nano) in
        let (r, chain) = add_transaction c tx s.chain in
        let s' = record s { chain = chain } in
        elim r [
          | err e ↦ (write_error 400 (from_ledger e), s')
          | ok _ ↦ then_persist json w (reply 202 (sending (tx_view c tx))) s'
        ]
  ]

  unfoldable pub mine : Json → World → Server → Reply × Server
  mine json w s =
      let (r, chain) = Mine.mine c w.search w.now_nano w.now_unix s.chain in
      let s' = record s { chain = chain } in
      elim r [
        | err Mine.panicked ↦ (aborted, s')
        | err e ↦ (write_error 500 (from_miner e), s')
        | ok result ↦ then_persist json w (reply 201 (mined result)) s'
      ]
