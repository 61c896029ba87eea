-- ===== src/Wallet/Kept.antt =====
-- What Create of internal/wallet/wallet.go leaves alone: the path, and every file but the keystore.
use toy_blockchain.Prelude.{
  ◌≡◌, ◌≢◌, refl, sym, ◌∙◌, Bool, true, false, Option, Text, text_eq_iff, arith, Result-cases, inl,
  inr,
}
use toy_blockchain.Go.Map.{lookup, insert, lookup-insert}
use toy_blockchain.Ledger.Signature.{KeyPair}
use toy_blockchain.Store.{Json, Disk}
use toy_blockchain.Wallet.{Keystore, create}
use toy_blockchain.Wallet.Saving.{
  Writing, complete, not_opened, torn, key_contents, save_keys, create_saved,
}

pub create_path :
    (generated : Option KeyPair) (saved : Bool) (label : Text) (k : Keystore)
    → (create generated saved label k).1.path ≡ k.path
unfolding create
create_path generated saved label k = ground arith

insert_other :
    (at path : Text) (v : Text) (disk : Disk)
    → path ≢ at
    → lookup path (insert at v disk) ≡ lookup path disk
insert_other at path v disk ne =
    ground (arith, lookup-insert at path v disk, text_eq_iff at path, λ (e : at ≡ path). ne (sym e))

save_other :
    (json : Json) (no_dir : Bool) (writing : Writing) (path : Text) (k : Keystore) (disk : Disk)
    → path ≢ k.path
    → lookup path (save_keys json no_dir writing k disk).1 ≡ lookup path disk
unfolding save_keys
save_other json true writing path k disk ne = refl
save_other json false complete path k disk ne =
    insert_other k.path path (key_contents json k.keys) disk ne
save_other json false not_opened path k disk ne = refl
save_other json false (torn part) path k disk ne = insert_other k.path path part disk ne

module _ (json : Json) (generated : Option KeyPair) (no_dir : Bool) (writing : Writing)
    (label : Text) (k : Keystore) (disk : Disk) where
  pub create_other :
      (path : Text)
      → path ≢ k.path
      → lookup path (create_saved json generated no_dir writing label k disk).2 ≡ lookup path disk
  unfolding create_saved
  create_other path ne = elim (Result-cases (create generated true label k).0) [
    | inr (e, r) ↦ ground (arith, r)
    | inl (pair, r) ↦
        let k' = (create generated true label k).1 in
        let kept =
          save_other json no_dir writing path k' disk
            (λ e. ne (e ∙ create_path generated true label k)) in
        ground (arith, r, kept)
  ]

  pub create_saved-path : (create_saved json generated no_dir writing label k disk).1.path ≡ k.path
  unfolding create_saved
  create_saved-path = elim (Result-cases (create generated true label k).0) [
    | inr (e, r) ↦ ground (arith, r)
    | inl (pair, r) ↦ ground (
      arith,
      r,
      create_path generated (save_keys json no_dir writing (create generated true label k).1 disk).0
          label k,
    )
  ]
