-- ===== src/Cli/Opening.antt =====
-- What opening the chain file gives, and on what it depends.
use mathlib.Core.Path.{subst}
use toy_blockchain.Prelude.{
  ◌≡◌, refl, sym, ap, ◌∙◌, Bool, false, none, some, inl, inr, Text, ok, arith, Result-cases,
  Option-cases,
}
use toy_blockchain.Crypto.{Crypto}
use toy_blockchain.Go.Map.{lookup}
use toy_blockchain.Config.{Config}
use toy_blockchain.Chain.Mine.{Chain, new_chain, LoadError}
use toy_blockchain.Chain.Mine
use toy_blockchain.Chain.Reload.{load_sound}
use toy_blockchain.Chain.Storable.{IsStorable, new_chain-IsStorable, load-IsStorable}
use toy_blockchain.Store.{Json, Disk, File, contents, Fits}
use toy_blockchain.Store
use toy_blockchain.Cli.App.{App, open_chain, open_app, with_wallet, open_wallet, open_keys}
use toy_blockchain.Wallet.{Keystore}
use toy_blockchain.Wallet.Saving.{KeyFile, absent, unreadable, not_json, keys_of, read_keys}

opened_path :
    (path : Text) (file : KeyFile) (k : Keystore) → open_wallet path file ≡ ok k → k.path ≡ path
unfolding open_wallet
opened_path path absent k h = ground (arith, h)
opened_path path unreadable k h = absurd (ground (arith, h))
opened_path path not_json k h = absurd (ground (arith, h))
opened_path path (keys_of keys) k h = ground (arith, h)

module _ (c : Crypto) (json : Json) where
  -- What opening the chain file gives, where it succeeds.
  pub data Opening (cfg : Config) (disk : Disk) (ch : Chain) : Type 0 where
    fresh : lookup cfg.data_file disk ≡ none → ch ≡ new_chain c cfg → Opening cfg disk ch
    stored :
        (file : File)
        → Store.load json false cfg.data_file disk ≡ ok (some file)
        → Mine.load c cfg file.blocks file.pending ≡ ok ch
        → Opening cfg disk ch

  no_file :
      (no_access : Bool) (path : Text) (disk : Disk)
      → Store.load json no_access path disk ≡ ok none
      → lookup path disk ≡ none
  unfolding Store.load Store.decode_file
  no_file no_access path disk h = elim (Option-cases (lookup path disk)) [
    | inl e ↦ e
    | inr (raw, e) ↦ absurd (ground (arith, h, e))
  ]

  a_file :
      (no_access : Bool) (path : Text) (disk : Disk) (file : File)
      → Store.load json no_access path disk ≡ ok (some file)
      → Store.load json false path disk ≡ ok (some file)
  unfolding Store.load
  a_file no_access path disk file h = ground (arith, h)

  pub opening :
      (cfg : Config) (no_access : Bool) (disk : Disk) (ch : Chain)
      → open_chain c json cfg no_access disk ≡ ok ch
      → Opening cfg disk ch
  unfolding open_chain
  opening cfg no_access disk ch h =
      elim (Result-cases (Store.load json no_access cfg.data_file disk)) [
        | inr (e, r) ↦ absurd (ground (arith, h, r))
        | inl (none, r) ↦ fresh (no_file no_access cfg.data_file disk r) (ground (arith, h, r))
        | inl (some file, r) ↦
            stored file (a_file no_access cfg.data_file disk file r) (ground (arith, h, r))
      ]

  pub Opening-IsStorable :
      (cfg : Config) (disk : Disk) (ch : Chain) → Opening cfg disk ch → IsStorable c ch
  Opening-IsStorable cfg disk ch (fresh e same) =
      subst (IsStorable c) (sym same) (new_chain-IsStorable c cfg)
  Opening-IsStorable cfg disk ch (stored file r l) =
      load-IsStorable c cfg file.blocks file.pending ch l

  -- Two settings with one chain file find the same blocks in it.
  pub Opening-blocks :
      (cfg cfg' : Config) (disk : Disk) (ch ch' : Chain)
      → cfg'.data_file ≡ cfg.data_file
      → Opening cfg disk ch
      → Opening cfg' disk ch'
      → ch'.blocks ≡ ch.blocks
  unfolding new_chain Store.load
  Opening-blocks cfg cfg' disk ch ch' same (fresh e n) (fresh e' n') =
      ap (λ d. d.blocks) n' ∙ sym (ap (λ d. d.blocks) n)
  Opening-blocks cfg cfg' disk ch ch' same (fresh e n) (stored file r l) =
      absurd (ground (arith, same, e, r))
  Opening-blocks cfg cfg' disk ch ch' same (stored file r l) (fresh e' n') =
      absurd (ground (arith, same, e', r))
  Opening-blocks cfg cfg' disk ch ch' same (stored file r l) (stored file' r' l') =
      let both : file' ≡ file = ground (arith, same, r, r') in
      (load_sound c cfg' file'.blocks file'.pending ch' l').2
      ∙ ap (λ f. f.blocks) both
      ∙ sym ((load_sound c cfg file.blocks file.pending ch l).2)

  open_keys-path :
      (no_key_access : Bool) (path : Text) (disk : Disk) (k : Keystore)
      → open_keys json no_key_access path disk ≡ ok k
      → k.path ≡ path
  unfolding open_keys
  open_keys-path no_key_access path disk k h =
      opened_path path (read_keys json no_key_access path disk) k h

  pub open_app-parts :
      (cfg : Config) (no_access no_key_access : Bool) (disk : Disk) (a : App)
      → open_app c json cfg no_access no_key_access disk ≡ ok a
      → (open_chain c json cfg no_access disk ≡ ok a.chain)
        × (a.store ≡ cfg.data_file)
        × (a.disk ≡ disk)
        × (a.wallet.path ≡ cfg.key_file)
  unfolding open_app with_wallet
  open_app-parts cfg no_access no_key_access disk a h =
      elim (Result-cases (open_chain c json cfg no_access disk)) [
        | inr (e, r) ↦ absurd (ground (arith, h, r))
        | inl (ch, r) ↦ elim (Result-cases (open_keys json no_key_access cfg.key_file disk)) [
          | inr (e, w) ↦ absurd (ground (arith, h, r, w))
          | inl (k, w) ↦ (
            ground (arith, h, r, w),
            ground (arith, h, r, w),
            ground (arith, h, r, w),
            ground (arith, h, r, w, open_keys-path no_key_access cfg.key_file disk k w),
          )
        ]
      ]

  pub open_same :
      (cfg : Config) (disk disk' : Disk)
      → lookup cfg.data_file disk' ≡ lookup cfg.data_file disk
      → open_chain c json cfg false disk' ≡ open_chain c json cfg false disk
  unfolding open_chain Store.load
  open_same cfg disk disk' h = rw (open_chain, h) refl
