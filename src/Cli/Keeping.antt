-- ===== src/Cli/Keeping.antt =====
-- What a command, serve included, and the saving after it do to the chain file.
use mathlib.Core.Path.{subst}
use toy_blockchain.Prelude.{
  ◌≡◌, ◌≢◌, ◌⊎◌, refl, sym, Bool, true, false, Option, Option-cases, err, List, [], ◌∷◌, inl, inr,
  Text, ok, Result-cases,
}
use toy_blockchain.Crypto.{Crypto}
use toy_blockchain.Block.Header.{Block}
use toy_blockchain.Miner.Proofs.{IsMiner}
use toy_blockchain.Chain.Reach.{InTime}
use toy_blockchain.Store.{Json, Disk, save, save_atomic}
use toy_blockchain.Cli.App.{App}
use toy_blockchain.Api.Agreement.{Served}
use toy_blockchain.Api.Lasting.{Keeps, Moved-Keeps, serve_all-Keeps}
use toy_blockchain.Api.Listening.{end_of, listen_and_serve}
use toy_blockchain.Cli.Commands.{Session, Outcome, server_of}
use toy_blockchain.Cli.Commands
use toy_blockchain.Cli.Run.{Command, serve, run_command, save_if}
use toy_blockchain.Cli.Persistence.{run_command-Ran}

is_serve : (cmd : Command) → (cmd ≡ serve) ⊎ (cmd ≢ serve)
is_serve serve = inl refl
is_serve _ = inr (λ e. cc)

module _ (c : Crypto) (json : Json) where
  -- What an app has open and the file at its path, as `Keeps` says of a server.
  abbrev pub AppKeeps : Text → Option Text → List Block → App → Type 0
  AppKeeps path old blocks a = Keeps c json path old blocks a.chain a.store a.disk

  serve-Keeps :
      (path : Text) (old : Option Text) (blocks : List Block) (x : Session) (args : List Text)
      (a : App)
      → Served c json x.requests (server_of a)
      → AppKeeps path old blocks a
      → a.store ≢ a.wallet.path
      → AppKeeps path old blocks (Commands.serve c json x args a).1
  unfolding Commands.serve listen_and_serve
  serve-Keeps path old blocks x (arg ∷ args) a ready k apart = k
  serve-Keeps path old blocks x [] a ready k apart =
      let kept = serve_all-Keeps c json path old blocks x.requests (server_of a) ready k apart in
      elim (Option-cases (end_of x.ending)) [
        | inl e ↦ rw (e, Commands.serve) kept
        | inr (f, e) ↦ rw (e, Commands.serve) kept
      ]

  pub run_command-Keeps :
      (path : Text) (old : Option Text) (blocks : List Block) (x : Session) (cmd : Command)
      (args : List Text) (a : App)
      → IsMiner c x.world.search
      → InTime x.world.now_unix a.chain
      → Served c json x.requests (server_of a)
      → AppKeeps path old blocks a
      → a.store ≢ a.wallet.path
      → AppKeeps path old blocks (run_command c json x cmd args a).1
  unfolding run_command
  run_command-Keeps path old blocks x cmd args a law on_time ready k apart = elim (is_serve cmd) [
    | inl e ↦
        subst (λ d. AppKeeps path old blocks (run_command c json x d args a).1) (sym e)
          (serve-Keeps path old blocks x args a ready k apart)
    | inr other ↦
        let a' = (run_command c json x cmd args a).1 in
        let (moved, on_disk, store) = run_command-Ran c json x law a on_time cmd args other in
        Moved-Keeps c json path old blocks a.chain a'.chain a.store a'.store a.disk a'.disk k moved
          store (inl (on_disk a.store apart))
  ]

  pub save_if-Keeps :
      (path : Text) (old : Option Text) (blocks : List Block) (x : Session) (mutates : Bool)
      (o : Outcome)
      → AppKeeps path old blocks o.1
      → AppKeeps path old blocks (save_if json x mutates o).1
  unfolding save_if
  save_if-Keeps path old blocks x false (r, a) k = k
  save_if-Keeps path old blocks x true (err e, a) k = k
  save_if-Keeps path old blocks x true (ok shown, a) k =
      elim (Result-cases
        (save json x.world.faults a.store a.chain.blocks a.chain.pool.pending a.disk).0) [
          | inl (u, r) ↦ rw (save_if, r) written
          | inr (e, r) ↦ rw (save_if, r) written
        ]
    where
      disk' : Disk
      disk' = (save json x.world.faults a.store a.chain.blocks a.chain.pool.pending a.disk).1

      written : Keeps c json path old blocks a.chain a.store disk'
      written =
          Moved-Keeps c json path old blocks a.chain a.chain a.store a.store a.disk disk' k
            (inl refl) refl
            (elim (save_atomic json x.world.faults a.store a.chain.blocks a.chain.pool.pending
              a.disk) [ inl (r, there) ↦ inr there | inr (e, r, kept) ↦ inl kept ])
