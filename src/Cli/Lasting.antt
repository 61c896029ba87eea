-- ===== src/Cli/Lasting.antt =====
-- Run after run on one chain file.
use toy_blockchain.Prelude.{
  ◌≡◌, ◌≢◌, ◌⊎◌, sym, ap, ◌∙◌, Bool, false, some, List, [], ◌∷◌, append-nil, inl, inr, Text, ok,
  arith, Result-cases, Option-cases,
}
use toy_blockchain.Crypto.{Crypto}
use toy_blockchain.Go.Map.{lookup}
use toy_blockchain.Config.{Config}
use toy_blockchain.Block.Header.{Block}
use toy_blockchain.Miner.Proofs.{IsMiner}
use toy_blockchain.Chain.Mine.{Chain}
use toy_blockchain.Chain.Reach.{InTime}
use toy_blockchain.Chain.Storable.{IsStorable, Extends, Extends-trans}
use toy_blockchain.Store.{Json, Disk, contents, Fits}
use toy_blockchain.Cli.App.{App, open_chain, open_app}
use toy_blockchain.Cli.Flags.{parse_flags}
use toy_blockchain.Api.Agreement.{Served}
use toy_blockchain.Cli.Commands.{Session, server_of}
use toy_blockchain.Cli.Run.{Command, commands, find_command, run_command, save_if, run}
use toy_blockchain.Cli.Reopen.{reopen}
use toy_blockchain.Cli.Opening.{
  Opening, opening, Opening-IsStorable, Opening-blocks, open_app-parts, open_same,
}
use toy_blockchain.Cli.Keeping.{AppKeeps, run_command-Keeps, save_if-Keeps}

-- One run of the program: what it gets from outside, which of its two files cannot be read, its arguments.
pub record Invocation : Type 0 where
  pub session : Session
  pub no_access : Bool
  pub no_key_access : Bool
  pub args : List Text

module _ (c : Crypto) (json : Json) where
  -- What is asked of a run: miners that meet `IsMiner`, arguments that leave the chain file as it is
  -- set and do not make it the keystore too, and a clock that no call of Mine finds behind the tip, those of a server's requests included.
  pub record IsRegular (cfg : Config) (v : Invocation) (disk : Disk) : Type 0 where
    pub miner : IsMiner c v.session.world.search
    pub same_file :
        (cfg' : Config) (rest : List Text)
        → parse_flags v.args cfg ≡ ok (cfg', rest)
        → cfg'.data_file ≡ cfg.data_file
    pub apart :
        (cfg' : Config) (rest : List Text)
        → parse_flags v.args cfg ≡ ok (cfg', rest)
        → cfg'.data_file ≢ cfg'.key_file
    pub on_time :
        (cfg' : Config) (rest : List Text) (a : App)
        → parse_flags v.args cfg ≡ ok (cfg', rest)
        → open_app c json cfg' v.no_access v.no_key_access disk ≡ ok a
        → InTime v.session.world.now_unix a.chain
    pub served :
        (cfg' : Config) (rest : List Text) (a : App)
        → parse_flags v.args cfg ≡ ok (cfg', rest)
        → open_app c json cfg' v.no_access v.no_key_access disk ≡ ok a
        → Served c json v.session.requests (server_of a)

  unfoldable pub run_one : Config → Invocation → Disk → Disk
  run_one cfg v disk = (run c json v.session cfg v.no_access v.no_key_access v.args disk).1

  -- A run either leaves the disk alone, or has opened the chain and carried out a command on it.
  run_cases :
      (cfg : Config) (v : Invocation) (disk : Disk)
      → (run_one cfg v disk ≡ disk)
        ⊎ ((cfg' : Config) × (name : Text) × (rest : List Text) × (mutates : Bool) × (cmd : Command)
            × (a : App) × (parse_flags v.args cfg ≡ ok (cfg', name ∷ rest))
            × (find_command name commands ≡ some (mutates, cmd))
            × (open_app c json cfg' v.no_access v.no_key_access disk ≡ ok a)
            × (run_one cfg v disk
                ≡ (save_if json v.session mutates
                    (run_command c json v.session cmd rest a)).1.disk))
  unfolding run_one run
  run_cases cfg v disk = elim (Result-cases (parse_flags v.args cfg)) [
    | inr (e, p) ↦ inl (ground (arith, p))
    | inl ((cfg', []), p) ↦ inl (ground (arith, p))
    | inl ((cfg', name ∷ rest), p) ↦ elim (Option-cases (find_command name commands)) [
      | inl f ↦ inl (ground (arith, p, f))
      | inr ((mutates, cmd), f) ↦
          elim (Result-cases (open_app c json cfg' v.no_access v.no_key_access disk)) [
            | inr (e, o) ↦ inl (ground (arith, p, f, o))
            | inl (a, o) ↦ inr (cfg', name, rest, mutates, cmd, a, p, f, o, ground (arith, p, f, o))
          ]
    ]
  ]

  -- JSON reads back every chain that can come to be stored.
  abbrev pub ReadsBack : Type 0
  ReadsBack = (ch : Chain) → IsStorable c ch → Fits json ch.blocks ch.pool.pending

  -- The chain file opens, on a chain that goes on from the blocks.
  abbrev pub OpensOn : Config → Disk → List Block → Type 0
  OpensOn cfg disk blocks =
      (ch : Chain) × (open_chain c json cfg false disk ≡ ok ch)
      × IsStorable c ch
      × Extends c blocks ch.blocks

  run_one-OpensOn :
      (reads : ReadsBack) (cfg : Config) (v : Invocation) (disk : Disk) (ch : Chain)
      → open_chain c json cfg false disk ≡ ok ch
      → IsRegular cfg v disk
      → OpensOn cfg (run_one cfg v disk) ch.blocks
  run_one-OpensOn reads cfg v disk ch there reg = elim (run_cases cfg v disk) [
    | inl kept ↦ unchanged (ap (λ d. lookup cfg.data_file d) kept)
    | inr (cfg', name, rest, mutates, cmd, a, p, f, o, left) ↦
        let (opened, store, on_disk, keys) =
          open_app-parts c json cfg' v.no_access v.no_key_access disk a o in
        let same = reg.same_file cfg' (name ∷ rest) p in
        let inv =
          Opening-IsStorable c json cfg' disk a.chain
            (opening c json cfg' v.no_access disk a.chain opened) in
        let blocks =
          Opening-blocks c json cfg cfg' disk ch a.chain same now
            (opening c json cfg' v.no_access disk a.chain opened) in
        let opened_keeps : AppKeeps c json cfg.data_file (lookup cfg.data_file disk) ch.blocks a =
          record {
            storable = inv;
            longer = ([], blocks ∙ sym (append-nil ch.blocks));
            at_path = store ∙ same;
            file = inl (ap (λ d. lookup cfg.data_file d) on_disk);
          } in
        let k =
          save_if-Keeps c json cfg.data_file (lookup cfg.data_file disk) ch.blocks v.session mutates
            (run_command c json v.session cmd rest a)
            (run_command-Keeps c json cfg.data_file (lookup cfg.data_file disk) ch.blocks v.session
              cmd rest a reg.miner (reg.on_time cfg' (name ∷ rest) a p o)
              (reg.served cfg' (name ∷ rest) a p o) opened_keeps
              (λ e. reg.apart cfg' (name ∷ rest) p (sym store ∙ e ∙ keys))) in
        elim k.file [
          | inl h ↦ unchanged (ap (λ d. lookup cfg.data_file d) left ∙ h)
          | inr (ch', inv', longer, h) ↦
              grown ch' inv' (ap (λ d. lookup cfg.data_file d) left ∙ h) longer
        ]
  ]
    where
      now : Opening c json cfg disk ch
      now = opening c json cfg false disk ch there

      unchanged :
          lookup cfg.data_file (run_one cfg v disk) ≡ lookup cfg.data_file disk
          → OpensOn cfg (run_one cfg v disk) ch.blocks
      unchanged h = (
        ch,
        open_same c json cfg disk (run_one cfg v disk) h ∙ there,
        Opening-IsStorable c json cfg disk ch now,
        ([], sym (append-nil ch.blocks)),
      )

      grown :
          (ch' : Chain)
          → IsStorable c ch'
          → lookup cfg.data_file (run_one cfg v disk)
            ≡ some (contents json ch'.blocks ch'.pool.pending)
          → Extends c ch.blocks ch'.blocks
          → OpensOn cfg (run_one cfg v disk) ch.blocks
      grown ch' inv' saved longer =
          let (ch'', opened, blocks, state) =
            (reopen c json cfg (run_one cfg v disk) ch' inv'.consistent saved (reads ch' inv')).0 in
          (
            ch'',
            opened,
            Opening-IsStorable c json cfg (run_one cfg v disk) ch''
                (opening c json cfg false (run_one cfg v disk) ch'' opened),
            (longer.0, blocks ∙ longer.1),
          )

  unfoldable pub run_all : Config → List Invocation → Disk → Disk
  run_all cfg [] disk = disk
  run_all cfg (v ∷ vs) disk = run_all cfg vs (run_one cfg v disk)

  abbrev pub AreRegular : Config → List Invocation → Disk → Type 0
  AreRegular cfg [] disk = Unit
  AreRegular cfg (v ∷ vs) disk = IsRegular cfg v disk × AreRegular cfg vs (run_one cfg v disk)

  -- Where JSON reads back what can be stored and the chain file opens: after any sequence of runs of
  -- the program that are regular, those of the server included, it opens again, on a consistent
  -- chain that begins with all the blocks it had. A run is regular if its miners meet `IsMiner`, its
  -- arguments keep the chain file, which is not the keystore, and its clock, at each request of a server too, is not behind the
  -- tip of the chain; it may fail at any step, the writing of the file included.
  pub runs_last :
      ReadsBack
      → (cfg : Config) (vs : List Invocation) (disk : Disk) (ch : Chain)
      → open_chain c json cfg false disk ≡ ok ch
      → AreRegular cfg vs disk
      → OpensOn cfg (run_all cfg vs disk) ch.blocks
  unfolding run_all
  runs_last reads cfg [] disk ch there reg = (
    ch,
    there,
    Opening-IsStorable c json cfg disk ch (opening c json cfg false disk ch there),
    ([], sym (append-nil ch.blocks)),
  )
  runs_last reads cfg (v ∷ vs) disk ch there (reg, regs) =
      let (ch', there', inv', (more, longer)) = run_one-OpensOn reads cfg v disk ch there reg in
      let (ch'', there'', inv'', (more', longer')) =
        runs_last reads cfg vs (run_one cfg v disk) ch' there' regs in
      (
        ch'',
        there'',
        inv'',
        Extends-trans c ch.blocks ch'.blocks ch''.blocks (more, longer) (more', longer'),
      )
