-- ===== src/Cli/Keys.antt =====
-- What Create of internal/wallet/wallet.go leaves in the keystore file.
use toy_blockchain.Prelude.{
  ◌≡◌, ◌≢◌, ◌⊎◌, inl, inr, refl, Bool, true, false, Option, none, some, [], Text, text_eq,
  text_eq_iff, text_eq_refl, if◌then◌else◌, ok, err, arith, Result-cases, Option-cases, Bool-cases,
}
use toy_blockchain.Go.Map.{lookup, insert, lookup-insert}
use toy_blockchain.Ledger.Signature.{KeyPair, private_hex}
use toy_blockchain.Store.{Json, Disk}
use toy_blockchain.Wallet.{Keystore, WalletError, not_saved, create}
use toy_blockchain.Wallet.Saving.{
  Writing, complete, not_opened, torn, key_contents, save_keys, create_saved,
}
use toy_blockchain.Wallet.Kept.{create_path}

-- Whether the file could be written decides only what Create returns beside the keystore in memory.
create_kept :
    (generated : Option KeyPair) (saved : Bool) (label : Text) (k : Keystore) (pair : KeyPair)
    → (create generated true label k).0 ≡ ok pair
    → ((create generated saved label k).1 ≡ (create generated true label k).1)
      × ((create generated saved label k).0 ≡ (if saved then ok pair else err not_saved))
unfolding create
create_kept generated true label k pair h = (refl, h)
create_kept generated false label k pair h = elim (Bool-cases (text_eq label [])) [
  | inl e ↦ absurd (ground (arith, h, e))
  | inr e ↦ elim (Option-cases (lookup label k.keys)) [
    | inr (old, there) ↦ absurd (ground (arith, h, e, there))
    | inl fresh ↦ elim (Option-cases generated) [
      | inl g ↦ absurd (ground (arith, h, e, fresh, g))
      | inr (new, g) ↦ (ground (arith, e, fresh, g), ground (arith, e, fresh, g))
    ]
  ]
]

save_cases :
    (json : Json) (no_dir : Bool) (writing : Writing) (k : Keystore) (disk : Disk)
    → let (saved, disk') = save_keys json no_dir writing k disk in
      ((saved ≡ true) × (lookup k.path disk' ≡ some (key_contents json k.keys)))
      ⊎ ((saved ≡ false)
          × ((disk' ≡ disk)
              ⊎ ((part : Text) × (writing ≡ torn part) × (lookup k.path disk' ≡ some part))))
unfolding save_keys
save_cases json true writing k disk = inr (refl, inl refl)
save_cases json false not_opened k disk = inr (refl, inl refl)
save_cases json false complete k disk = inl (
  refl,
  ground (arith, lookup-insert k.path k.path (key_contents json k.keys) disk, text_eq_refl k.path),
)
save_cases json false (torn part) k disk = inr (
  refl,
  inr (part, refl, ground (arith, lookup-insert k.path k.path part disk, text_eq_refl k.path)),
)

module _ (json : Json) (no_dir : Bool) (writing : Writing) (label : Text) (k : Keystore)
    (disk : Disk) (generated : Option KeyPair) where
  abbrev pub added : Keystore
  added = (create generated true label k).1

  -- Create that reaches its save.
  pub reached :
      (pair : KeyPair)
      → (create generated true label k).0 ≡ ok pair
      → create_saved json generated no_dir writing label k disk ≡ (
        (if (save_keys json no_dir writing added disk).0 then ok pair else err not_saved),
        added,
        (save_keys json no_dir writing added disk).1,
      )
  unfolding create_saved
  reached pair r =
      let (kept, result) =
        create_kept generated (save_keys json no_dir writing added disk).0 label k pair r in
      ground (arith, r, kept, result)

  -- Create that returns nil or fails in its save has made a pair under a new label.
  pub made_pair :
      (pair : KeyPair)
      → (create generated true label k).0 ≡ ok pair
      → (generated ≡ some pair)
        × (label ≢ [])
        × (lookup label k.keys ≡ none)
        × (added.keys ≡ insert label (private_hex pair) k.keys)
  unfolding create
  made_pair pair h = elim (Bool-cases (text_eq label [])) [
    | inl e ↦ absurd (ground (arith, h, e))
    | inr e ↦ elim (Option-cases (lookup label k.keys)) [
      | inr (old, there) ↦ absurd (ground (arith, h, e, there))
      | inl fresh ↦ elim (Option-cases generated) [
        | inl g ↦ absurd (ground (arith, h, e, fresh, g))
        | inr (new, g) ↦ (
          ground (arith, h, e, fresh, g),
          (λ same. cc (e, (text_eq_iff label []).1 same)),
          fresh,
          ground (arith, h, e, fresh, g),
        )
      ]
    ]
  ]

  -- Create either returns nil with the pair that was generated: then the label was not empty and
  -- named no key, and the file holds the keys that there were and the pair's private key under the
  -- label. Or it returns an error and has not touched the disk. Or writing has failed half-way, and
  -- the file holds what was written, in place of the keys that it held.
  pub create_file :
      let (r, k', disk') = create_saved json generated no_dir writing label k disk in
      ((pair : KeyPair) × (r ≡ ok pair)
        × (generated ≡ some pair)
        × (label ≢ [])
        × (lookup label k.keys ≡ none)
        × (lookup k.path disk' ≡ some (key_contents json (insert label (private_hex pair) k.keys))))
      ⊎ (((e : WalletError) × (r ≡ err e) × (disk' ≡ disk))
          ⊎ ((part : Text) × (writing ≡ torn part)
              × (r ≡ err not_saved)
              × (lookup k.path disk' ≡ some part)))
  unfolding create_saved
  create_file = elim (Result-cases (create generated true label k).0) [
    | inr (e, r) ↦ inr (inl (e, ground (arith, r), ground (arith, r)))
    | inl (pair, r) ↦
        let same = reached pair r in
        let path = create_path generated true label k in
        let (given, named, fresh, keys) = made_pair pair r in
        elim (save_cases json no_dir writing added disk) [
          | inl (saved, there) ↦
              inl (pair, cc saved, given, named, fresh, cc (same, saved, there, path, keys))
          | inr (unsaved, inl kept) ↦ inr (inl (not_saved, cc (same, unsaved), cc (same, kept)))
          | inr (unsaved, inr (part, w, there)) ↦
              inr (inr (part, w, cc (same, unsaved), cc (same, there, path)))
        ]
  ]
