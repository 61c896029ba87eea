-- ===== src/Api/Kept.antt =====
-- What the handlers of internal/api/handlers.go leave alone: the paths, and the files that they do not
-- write.
use toy_blockchain.Prelude.{◌≡◌, ◌≢◌, refl, Text, Option, none, some, arith, ℤ}
use toy_blockchain.Crypto.{Crypto}
use toy_blockchain.Go.Map.{lookup}
use toy_blockchain.Store.{Json}
use toy_blockchain.Wallet.Kept.{create_other, create_saved-path}
use toy_blockchain.World.{World}
use toy_blockchain.Api.Server.{Server, persist}
use toy_blockchain.Api.Handlers
use toy_blockchain.Api.Effects.{IsSaved}

-- The chain is what it was, and so is every file but the keystore.
abbrev pub KeptBut : Server → Server → Type 0
KeptBut s s' =
    (s'.chain ≡ s.chain)
    × ((path : Text) → path ≢ s.wallet.path → lookup path s'.disk ≡ lookup path s.disk)

pub create_key-KeptBut :
    (c : Crypto) (json : Json) (w : World) (body : Option Text) (s : Server)
    → KeptBut s (Handlers.create_key c json w body s).1
unfolding Handlers.create_key
create_key-KeptBut c json w none s = (refl, λ path ne. refl)
create_key-KeptBut c json w (some label) s =
    let other = create_other json w.generated w.no_key_dir w.key_writing label s.wallet s.disk in
    (ground arith, λ path ne. ground (arith, other path ne))

pub IsSaved-KeptBut :
    (json : Json) (s s' : Server)
    → s'.store ≡ s.store
    → s.store ≢ s.wallet.path
    → KeptBut s s'
    → IsSaved json s
    → IsSaved json s'
IsSaved-KeptBut json s s' e apart (same, kept) h = rw (e, same, kept s.store apart) h

pub IsSaved-same :
    (json : Json) (s s' : Server)
    → s'.store ≡ s.store
    → s'.chain ≡ s.chain
    → s'.disk ≡ s.disk
    → IsSaved json s
    → IsSaved json s'
IsSaved-same json s s' e same kept h = rw (e, same, kept) h

pub faucet_store :
    (c : Crypto) (json : Json) (w : World) (body : Option (Text × ℤ)) (s : Server)
    → ((Handlers.faucet c json w body s).1.store ≡ s.store)
      × ((Handlers.faucet c json w body s).1.wallet ≡ s.wallet)
unfolding Handlers.faucet Handlers.then_persist persist
faucet_store c json w none s = (refl, refl)
faucet_store c json w (some (name, amount)) s = (ground arith, ground arith)

pub transfer_store :
    (c : Crypto) (json : Json) (w : World) (body : Option (Text × Text × ℤ)) (s : Server)
    → ((Handlers.create_transaction c json w body s).1.store ≡ s.store)
      × ((Handlers.create_transaction c json w body s).1.wallet ≡ s.wallet)
unfolding Handlers.create_transaction Handlers.then_persist persist
transfer_store c json w none s = (refl, refl)
transfer_store c json w (some (from, name, amount)) s = (ground arith, ground arith)

pub key_store :
    (c : Crypto) (json : Json) (w : World) (body : Option Text) (s : Server)
    → ((Handlers.create_key c json w body s).1.store ≡ s.store)
      × ((Handlers.create_key c json w body s).1.wallet.path ≡ s.wallet.path)
unfolding Handlers.create_key
key_store c json w none s = (refl, refl)
key_store c json w (some label) s =
    let path =
      create_saved-path json w.generated w.no_key_dir w.key_writing label s.wallet s.disk in
    (ground arith, ground (arith, path))
