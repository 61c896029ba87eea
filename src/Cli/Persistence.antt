-- ===== src/Cli/Persistence.antt =====
-- What a command leaves in the chain file.
use mathlib.Core.Path.{subst}
use toy_blockchain.Prelude.{
  ◌≡◌, ◌≢◌, ◌⊎◌, inl, inr, refl, sym, ap, ◌∙◌, ℤ, Bool, true, false, some, List, [], ◌∷◌, Text,
  Result, ok, err, arith, Result-cases, Bool-cases, All, text_eq,
}
use toy_blockchain.Crypto.{Crypto}
use toy_blockchain.Go.Map.{lookup}
use toy_blockchain.Ledger.Transaction.{new_transfer}
use toy_blockchain.Ledger.Signature.{sign}
use toy_blockchain.Miner.Proofs.{IsMiner}
use toy_blockchain.Chain.Mine
use toy_blockchain.Chain.Mining.{IsConsistent}
use toy_blockchain.Chain.Mine.{Chain}
use toy_blockchain.Chain.Reach.{InTime, Step, queue, mint, extend, Moved, Moved-IsConsistent}
use toy_blockchain.Store.{Json, contents, save_atomic}
use toy_blockchain.Wallet.{key_pair, resolve}
use toy_blockchain.Wallet.Kept.{create_other}
use toy_blockchain.Cli.App.{App}
use toy_blockchain.Cli.Commands.{CliError, Shown, Session, Outcome, wrong_arguments, parse_amount}
use toy_blockchain.Cli.Commands
use toy_blockchain.Cli.Run.{
  Command, CommandRow, keygen, faucet, send, mine, serve, commands, find_command, run_command,
  save_if,
}

-- The commands after which the chain is to be saved.
abbrev pub changes_chain : Command → Bool
changes_chain faucet = true
changes_chain send = true
changes_chain mine = true
changes_chain _ = false

find_command-row :
    (name : Text) (l : List CommandRow) (mutates : Bool) (cmd : Command)
    → All (λ (r : CommandRow). r.mutates ≡ changes_chain r.method) l
    → find_command name l ≡ some (mutates, cmd)
    → mutates ≡ changes_chain cmd
unfolding find_command
find_command-row name [] mutates cmd rows h = absurd (ground (arith, h))
find_command-row name (r ∷ l) mutates cmd (row, rows) h = elim (Bool-cases (text_eq r.name name)) [
  | inr other ↦ find_command-row name l mutates cmd rows (ground (arith, h, other))
  | inl same ↦
      let flag : r.mutates ≡ mutates = ground (arith, h, same) in
      let method : r.method ≡ cmd = ground (arith, h, same) in
      sym flag ∙ row ∙ ap changes_chain method
]

-- The table saves after exactly those commands.
table_mutates :
    (name : Text) (mutates : Bool) (cmd : Command)
    → find_command name commands ≡ some (mutates, cmd)
    → mutates ≡ changes_chain cmd
table_mutates name mutates cmd h =
    find_command-row name commands mutates cmd
      (refl, (refl, (refl, (refl, (refl, (refl, (refl, (refl, (refl, (refl, (refl, tt))))))))))) h

module _ (c : Crypto) (json : Json) (x : Session) (law : IsMiner c x.world.search) (a : App) where
  -- The chain has moved by a call at most, and no file but the keystore has been touched.
  abbrev pub Ran : Outcome → Type 0
  Ran (r, a') =
      Moved c a.chain a'.chain
      × ((path : Text) → path ≢ a.wallet.path → lookup path a'.disk ≡ lookup path a.disk)
      × (a'.store ≡ a.store)

  still : (r : Result CliError Shown) → Ran (r, a)
  still r = (inl refl, (λ path ne. refl), refl)

  keygen-Ran : (args : List Text) → Ran (Commands.keygen c x.world json args a)
  unfolding Commands.keygen
  keygen-Ran [] = still (err wrong_arguments)
  keygen-Ran (label ∷ []) =
      let other =
        create_other json x.world.generated x.world.no_key_dir x.world.key_writing label a.wallet
          a.disk in
      (inl (ground arith), (λ path ne. ground (arith, other path ne)), ground arith)
  keygen-Ran (label ∷ more ∷ args) = still (err wrong_arguments)

  faucet-Ran : (args : List Text) → Ran (Commands.faucet c x.world args a)
  unfolding Commands.faucet
  faucet-Ran [] = still (err wrong_arguments)
  faucet-Ran (to ∷ []) = still (err wrong_arguments)
  faucet-Ran (to ∷ amount ∷ []) = elim (Result-cases (parse_amount amount)) [
    | inr (e, p) ↦ subst Ran (sym (refused e p)) (still (err e))
    | inl (n, p) ↦ (
      inr (
          subst (Step c a.chain) (sym (called n p))
            (mint (resolve c to a.wallet) n x.world.now_nano)),
      (λ path ne. ground (arith, p)),
      ground (arith, p),
    )
  ]
    where
      refused :
          (e : CliError)
          → parse_amount amount ≡ err e
          → Commands.faucet c x.world (to ∷ amount ∷ []) a ≡ (err e, a)
      refused e p = ground (arith, p)

      called :
          (n : ℤ)
          → parse_amount amount ≡ ok n
          → (Commands.faucet c x.world (to ∷ amount ∷ []) a).1.chain
            ≡ (Mine.faucet c (resolve c to a.wallet) n x.world.now_nano a.chain).1
      called n p = ground (arith, p)
  faucet-Ran (to ∷ amount ∷ more ∷ args) = still (err wrong_arguments)

  send-Ran : (args : List Text) → Ran (Commands.send c x.world args a)
  unfolding Commands.send
  send-Ran [] = still (err wrong_arguments)
  send-Ran (from ∷ []) = still (err wrong_arguments)
  send-Ran (from ∷ to ∷ []) = still (err wrong_arguments)
  send-Ran (from ∷ to ∷ amount ∷ []) = elim (Result-cases (parse_amount amount)) [
    | inr (e, p) ↦ kept (err e) (ground (arith, p))
    | inl (n, p) ↦ elim (Result-cases (key_pair c from a.wallet)) [
      | inr (e, k) ↦ kept (err (Commands.in_wallet e)) (ground (arith, p, k))
      | inl (pair, k) ↦
          let tx = sign c pair (new_transfer [] (resolve c to a.wallet) n x.world.now_nano) in
          let ch = (Mine.add_transaction c tx a.chain).1 in
          let same : (Commands.send c x.world (from ∷ to ∷ amount ∷ []) a).1.chain ≡ ch =
            ground (arith, p, k) in
          (
            inr (subst (Step c a.chain) (sym same) (queue tx)),
            (λ path ne. ground (arith, p, k)),
            ground (arith, p, k),
          )
    ]
  ]
    where
      kept :
          (r : Result CliError Shown)
          → Commands.send c x.world (from ∷ to ∷ amount ∷ []) a ≡ (r, a)
          → Ran (Commands.send c x.world (from ∷ to ∷ amount ∷ []) a)
      kept r e = subst Ran (sym e) (still r)
  send-Ran (from ∷ to ∷ amount ∷ more ∷ args) = still (err wrong_arguments)

  mine-Ran :
      InTime x.world.now_unix a.chain → (args : List Text) → Ran (Commands.mine c x.world args a)
  unfolding Commands.mine
  mine-Ran on_time [] =
      (inr (subst (Step c a.chain) (sym same) called), (λ path ne. ground arith), ground arith)
    where
      called :
          Step c a.chain (Mine.mine c x.world.search x.world.now_nano x.world.now_unix a.chain).1
      called = extend x.world.search x.world.now_nano x.world.now_unix law on_time

      same :
          (Commands.mine c x.world [] a).1.chain
          ≡ (Mine.mine c x.world.search x.world.now_nano x.world.now_unix a.chain).1
      same = ground arith
  mine-Ran on_time (more ∷ args) = still (err wrong_arguments)

  pub run_command-Ran :
      InTime x.world.now_unix a.chain
      → (cmd : Command) (args : List Text) → cmd ≢ serve
      → Ran (run_command c json x cmd args a)
  unfolding run_command
  run_command-Ran on_time keygen args h = keygen-Ran args
  run_command-Ran on_time faucet args h = faucet-Ran args
  run_command-Ran on_time send args h = send-Ran args
  run_command-Ran on_time mine args h = mine-Ran on_time args
  run_command-Ran on_time serve args h = absurd (h refl)
  run_command-Ran on_time _ args h = (inl refl, (λ path ne. refl), refl)

  -- What the session is left with, and the chain file.
  abbrev pub Saved : Bool → Outcome → Type 0
  Saved mutates (r, a') =
      ((shown : Shown) × (r ≡ ok shown)
        × (mutates ≡ true)
        × Moved c a.chain a'.chain
        × (lookup a.store a'.disk ≡ some (contents json a'.chain.blocks a'.chain.pool.pending)))
      ⊎ ((lookup a.store a'.disk ≡ lookup a.store a.disk)
          × (((e : CliError) × (r ≡ err e)) ⊎ (mutates ≡ false)))

  save_if-Ran :
      a.store ≢ a.wallet.path
      → (mutates : Bool) (o : Outcome) → Ran o
      → Saved mutates (save_if json x mutates o)
  unfolding save_if
  save_if-Ran apart false (r, a') (good, d, s) = inr (d a.store apart, inr refl)
  save_if-Ran apart true (err e, a') (good, d, s) = inr (d a.store apart, inl (e, refl))
  save_if-Ran apart true (ok shown, a') (good, d, s) =
      elim (save_atomic json x.world.faults a'.store a'.chain.blocks a'.chain.pool.pending
        a'.disk) [
          | inl (r, there) ↦
              let same : a'.chain ≡ (save_if json x true (ok shown, a')).1.chain =
                ground (arith, r) in
              inl (
                shown,
                ground (arith, r),
                refl,
                subst (Moved c a.chain) same good,
                ground (arith, r, there, s),
              )
          | inr (e, r, kept) ↦ inr (
            ground (arith, r, kept, s, d a.store apart),
            inl (Commands.in_store e, ground (arith, r)),
          )
        ]

  -- On an opened app whose keystore is not its chain file, with a consistent chain, a miner that
  -- meets `IsMiner` and a clock that is not behind the tip, every command of the table but serve,
  -- under its name: either it succeeds, is faucet, send or mine, and the chain file holds a
  -- consistent chain, which is the one that the command left; or the chain file is what it was, and
  -- the command has failed or is none of these three.
  pub run_command_saves :
      IsConsistent c a.chain
      → InTime x.world.now_unix a.chain
      → a.store ≢ a.wallet.path
      → (name : Text) (mutates : Bool) (cmd : Command)
      → find_command name commands ≡ some (mutates, cmd)
      → cmd ≢ serve
      → (args : List Text)
      → let (r, a') = save_if json x mutates (run_command c json x cmd args a) in
        ((shown : Shown) × (r ≡ ok shown)
          × (changes_chain cmd ≡ true)
          × IsConsistent c a'.chain
          × (lookup a.store a'.disk ≡ some (contents json a'.chain.blocks a'.chain.pool.pending)))
        ⊎ ((lookup a.store a'.disk ≡ lookup a.store a.disk)
            × (((e : CliError) × (r ≡ err e)) ⊎ (changes_chain cmd ≡ false)))
  run_command_saves inv on_time apart name mutates cmd found h args =
      let row = table_mutates name mutates cmd found in
      elim (save_if-Ran apart mutates (run_command c json x cmd args a)
        (run_command-Ran on_time cmd args h)) [
          | inl (shown, r, m, moved, there) ↦
              inl (shown, r, sym row ∙ m, Moved-IsConsistent c a.chain _ inv moved, there)
          | inr (kept, inl failed) ↦ inr (kept, inl failed)
          | inr (kept, inr reads) ↦ inr (kept, inr (sym row ∙ reads))
        ]
