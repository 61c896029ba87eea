-- ===== src/Cli/Run.antt =====
-- Run in internal/cli/cli.go: flags, the command, and the saving of what it changed.
use toy_blockchain.Prelude.{
  Bool, true, false, Option, none, some, List, [], ◌∷◌, Text, codes, text_eq, if◌then◌else◌, Result,
  ok, err,
}
use toy_blockchain.Crypto.{Crypto}
use toy_blockchain.Config.{Config}
use toy_blockchain.Store.{Json, Disk, save}
use toy_blockchain.Cli.Flags.{parse_flags}
use toy_blockchain.Cli.App.{App, open_app}
use toy_blockchain.Cli.Commands.{
  CliError, in_flags, in_opening, in_store, no_command, unknown_command, Shown, Session, Outcome,
}
use toy_blockchain.Cli.Commands

pub data Command : Type 0 where
  keygen keys faucet send mine print validate balance pending bench serve : Command

-- A row of the table: the name, the summary of its arguments and of what it does, for the help;
-- whether the chain is saved after a successful run; and the method.
pub record CommandRow : Type 0 where
  pub name : Text
  pub args : Text
  pub summary : Text
  pub mutates : Bool
  pub method : Command

abbrev row : Text → Text → Text → Bool → Command → CommandRow
row name args summary mutates method = record {
  name = name;
  args = args;
  summary = summary;
  mutates = mutates;
  method = method;
}

abbrev pub commands : List CommandRow
commands =
    row (codes "keygen") (codes "<label>") (codes "create a key pair and show its address") false
      keygen
    ∷ row (codes "keys") (codes "") (codes "list the key pairs in the local keystore") false keys
    ∷ row (codes "faucet") (codes "<label|address> <amount>")
        (codes "mint coins into an account (toy only)") true faucet
    ∷ row (codes "send") (codes "<from-label> <to> <amount>") (codes "sign and queue a transfer")
        true send
    ∷ row (codes "mine") (codes "") (codes "mine the pending transactions into a new block") true
        mine
    ∷ row (codes "print") (codes "") (codes "print the chain, newest block last") false print
    ∷ row (codes "validate") (codes "")
        (codes "re-check the whole chain and report the first fault") false validate
    ∷ row (codes "balance") (codes "[label|address]") (codes "show confirmed balances") false
        balance
    ∷ row (codes "pending") (codes "") (codes "list transactions waiting to be mined") false pending
    ∷ row (codes "bench") (codes "[max-difficulty] [runs] [workers]")
        (codes "measure mining cost per difficulty") false bench
    ∷ row (codes "serve") (codes "") (codes "expose the chain over HTTP (see -addr)") false serve
    ∷ []

unfoldable pub find_command : Text → List CommandRow → Option (Bool × Command)
find_command name [] = none
find_command name (cmd ∷ rest) =
    if text_eq cmd.name name then some (cmd.mutates, cmd.method) else find_command name rest

unfoldable pub run_command : Crypto → Json → Session → Command → List Text → App → Outcome
run_command c json x keygen args a = Commands.keygen c x.world json args a
run_command c json x keys args a = (Commands.keys c args a, a)
run_command c json x faucet args a = Commands.faucet c x.world args a
run_command c json x send args a = Commands.send c x.world args a
run_command c json x mine args a = Commands.mine c x.world args a
run_command c json x print args a = (Commands.print args a, a)
run_command c json x validate args a = (Commands.validate c args a, a)
run_command c json x balance args a = (Commands.show_balance c args a, a)
run_command c json x pending args a = (Commands.pending c args a, a)
run_command c json x bench args a = (Commands.bench c x args, a)
run_command c json x serve args a = Commands.serve c json x args a

-- After a successful command that mutates, the chain is saved.
unfoldable pub save_if : Json → Session → Bool → Outcome → Outcome
save_if json x false (r, a) = (r, a)
save_if json x true (err e, a) = (err e, a)
save_if json x true (ok shown, a) =
    let (r, disk) = save json x.world.faults a.store a.chain.blocks a.chain.pool.pending a.disk in
    elim r [
      | err e ↦ (err (in_store e), record a { disk = disk })
      | ok _ ↦ (ok shown, record a { disk = disk })
    ]

-- A whole run, with the disk that it leaves. The two Booleans say that ReadFile fails on the chain file
-- and on the keystore, where they are there.
unfoldable pub run :
    Crypto → Json → Session → Config → Bool → Bool → List Text → Disk → Result CliError Shown × Disk
run c json x cfg no_access no_key_access args disk = elim (parse_flags args cfg) [
  | err e ↦ (err (in_flags e), disk)
  | ok (cfg', []) ↦ (err no_command, disk)
  | ok (cfg', name ∷ rest) ↦ elim (find_command name commands) [
    | none ↦ (err (unknown_command name), disk)
    | some (mutates, cmd) ↦ elim (open_app c json cfg' no_access no_key_access disk) [
      | err e ↦ (err (in_opening e), disk)
      | ok a ↦
          let (r, a') = save_if json x mutates (run_command c json x cmd rest a) in (r, a'.disk)
    ]
  ]
]
