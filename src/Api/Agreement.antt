-- ===== src/Api/Agreement.antt =====
-- Memory and file over the requests that a server handles: which requests change the chain, and
-- when the chain file holds what the server has in memory.
use toy_blockchain.Prelude.{
  ◌≡◌, ◌≢◌, ◌⊎◌, inl, inr, refl, sym, ap, ◌∙◌, Bool, true, false, List, [], ◌∷◌, ⊤, Text, ok, arith,
  Bool-cases,
}
use toy_blockchain.Crypto.{Crypto}
use toy_blockchain.Go.Map.{lookup}
use toy_blockchain.Miner.Proofs.{IsMiner}
use toy_blockchain.Chain.Validate
use toy_blockchain.Chain.Valid.{validate_exact}
use toy_blockchain.Chain.Mining.{IsConsistent}
use toy_blockchain.Chain.Reach.{InTime, Moved, Moved-IsConsistent}
use toy_blockchain.Store.{Json, StoreError}
use toy_blockchain.Wallet.{Keystore}
use toy_blockchain.World.{World}
use toy_blockchain.Api.Server.{Server, Reply, write_error, from_store, persist}
use toy_blockchain.Api.Handlers
use toy_blockchain.Api.Router.{
  Endpoint, health, get_chain, validate, get_block, get_balances, get_balance, get_pending,
  list_keys, create_key, faucet, create_transaction, mine, Request, Routed, to, not_found,
  not_allowed, moved_permanently, routes, dispatch, run_endpoint, answer, serve_request, serve_all,
}
use toy_blockchain.Api.Calls.{faucet-Moved, create_transaction-Moved, mine-Moved}
use toy_blockchain.Api.Effects.{
  IsSaved, Effect, faucet-Effect, create_transaction-Effect, mine-Effect,
}
use toy_blockchain.Api.Kept.{
  create_key-KeptBut, IsSaved-KeptBut, IsSaved-same, faucet_store, transfer_store, key_store,
}

-- The endpoints that may change the chain.
abbrev pub changes : Endpoint → Bool
changes faucet = true
changes create_transaction = true
changes mine = true
changes _ = false

-- Some reply is the failure to write the chain file.
abbrev pub StoreFailed : List Reply → Type 0
StoreFailed [] = ⊥
StoreFailed (a ∷ replies) =
    ((e : StoreError) × (a ≡ write_error 500 (from_store e))) ⊎ StoreFailed replies

-- The miner of each request meets `IsMiner`, and its clock is not behind the tip that it finds.
abbrev pub Served : Crypto → Json → List (World × Request) → Server → Type 0
Served c json [] s = ⊤
Served c json ((w, req) ∷ rest) s =
    IsMiner c w.search
    × InTime w.now_unix s.chain
    × Served c json rest (serve_request c json w req s).1

module _ (c : Crypto) (json : Json) (w : World) (law : IsMiner c w.search) (req : Request)
    (s : Server) (inv : IsConsistent c s.chain) where
  -- On a consistent chain and with a miner that meets `IsMiner`: a POST to faucet, transactions or
  -- mine either succeeds and has written the chain as it is now to the chain file; or answers 500
  -- because the file could not be written, and the file is what it was; or fails, and neither chain
  -- nor disk has changed. Every other endpoint leaves the chain and every file but the keystore as
  -- they were, and all but POST /keys leave the whole server and disk as they were.
  pub run_endpoint-Effect :
      (endpoint : Endpoint) (value : Text)
      → let (a, s') = run_endpoint c json w endpoint value req s in
        (changes endpoint ≡ true → Effect json s a s')
        × (changes endpoint ≡ false
            → (s'.chain ≡ s.chain)
              × ((path : Text) → path ≢ s.wallet.path → lookup path s'.disk ≡ lookup path s.disk))
        × (changes endpoint ≡ false → endpoint ≢ create_key → s' ≡ s)
  unfolding run_endpoint
  run_endpoint-Effect faucet value =
      ((λ h. faucet-Effect c json w s req.faucet_body), (λ h. cc), λ h ne. cc)
  run_endpoint-Effect create_transaction value =
      ((λ h. create_transaction-Effect c json w s req.transfer_body), (λ h. cc), λ h ne. cc)
  run_endpoint-Effect mine value = ((λ h. mine-Effect c json w s law inv), (λ h. cc), λ h ne. cc)
  run_endpoint-Effect create_key value =
      ((λ h. cc), (λ h. create_key-KeptBut c json w req.key_body s), λ h ne. absurd (ne refl))
  run_endpoint-Effect health value = ((λ h. cc), (λ h. (refl, λ path ne. refl)), λ h ne. refl)
  run_endpoint-Effect get_chain value = ((λ h. cc), (λ h. (refl, λ path ne. refl)), λ h ne. refl)
  run_endpoint-Effect validate value = ((λ h. cc), (λ h. (refl, λ path ne. refl)), λ h ne. refl)
  run_endpoint-Effect get_block value = ((λ h. cc), (λ h. (refl, λ path ne. refl)), λ h ne. refl)
  run_endpoint-Effect get_balances value = ((λ h. cc), (λ h. (refl, λ path ne. refl)), λ h ne. refl)
  run_endpoint-Effect get_balance value = ((λ h. cc), (λ h. (refl, λ path ne. refl)), λ h ne. refl)
  run_endpoint-Effect get_pending value = ((λ h. cc), (λ h. (refl, λ path ne. refl)), λ h ne. refl)
  run_endpoint-Effect list_keys value = ((λ h. cc), (λ h. (refl, λ path ne. refl)), λ h ne. refl)

  pub endpoint_paths :
      (endpoint : Endpoint) (value : Text)
      → let s' = (run_endpoint c json w endpoint value req s).1 in
        (s'.store ≡ s.store) × (s'.wallet.path ≡ s.wallet.path)
  unfolding run_endpoint Handlers.mine Handlers.then_persist persist
  endpoint_paths faucet value =
      let (store, wallet) = faucet_store c json w req.faucet_body s in
      (store, ap (λ (k : Keystore). k.path) wallet)
  endpoint_paths create_transaction value =
      let (store, wallet) = transfer_store c json w req.transfer_body s in
      (store, ap (λ (k : Keystore). k.path) wallet)
  endpoint_paths mine value = (ground arith, ground arith)
  endpoint_paths create_key value = key_store c json w req.key_body s
  endpoint_paths _ value = (refl, refl)

  pub endpoint-Moved :
      InTime w.now_unix s.chain
      → (endpoint : Endpoint) (value : Text)
      → Moved c s.chain (run_endpoint c json w endpoint value req s).1.chain
  unfolding run_endpoint
  endpoint-Moved on_time faucet value = faucet-Moved c json w s req.faucet_body
  endpoint-Moved on_time create_transaction value =
      create_transaction-Moved c json w s req.transfer_body
  endpoint-Moved on_time mine value = mine-Moved c json w s law on_time
  endpoint-Moved on_time create_key value = inl (create_key-KeptBut c json w req.key_body s).0
  endpoint-Moved on_time _ value = inl refl

  endpoint_agrees :
      s.store ≢ s.wallet.path
      → (endpoint : Endpoint) (value : Text) → IsSaved json s
      → IsSaved json (run_endpoint c json w endpoint value req s).1
        ⊎ ((e : StoreError) × ((run_endpoint c json w endpoint value req s).0
              ≡ write_error 500 (from_store e)))
  endpoint_agrees apart endpoint value h =
      let s' = (run_endpoint c json w endpoint value req s).1 in
      let (effect, kept, _) = run_endpoint-Effect endpoint value in
      let store = (endpoint_paths endpoint value).0 in
      elim (Bool-cases (changes endpoint)) [
        | inr reading ↦ inl (IsSaved-KeptBut json s s' store apart (kept reading) h)
        | inl changing ↦ elim (effect changing) [
          | inl (good, saved) ↦ inl saved
          | inr (inl (e, r, same)) ↦ inr (e, r)
          | inr (inr (bad, ch, d)) ↦ inl (IsSaved-same json s s' store ch d h)
        ]
      ]

  -- Under a request the chain stays consistent and the paths stay apart, and the chain file goes on
  -- holding what is in memory, unless the reply says that it could not be written.
  pub answer_agrees :
      InTime w.now_unix s.chain
      → s.store ≢ s.wallet.path
      → (routed : Routed)
      → let (a, s') = answer c json w routed req s in
        IsConsistent c s'.chain
        × (s'.store ≢ s'.wallet.path)
        × (IsSaved json s
            → IsSaved json s' ⊎ ((e : StoreError) × (a ≡ write_error 500 (from_store e))))
  unfolding answer
  answer_agrees on_time apart not_found = (inv, apart, λ h. inl h)
  answer_agrees on_time apart not_allowed = (inv, apart, λ h. inl h)
  answer_agrees on_time apart (moved_permanently path) = (inv, apart, λ h. inl h)
  answer_agrees on_time apart (to endpoint value) =
      let (store, path) = endpoint_paths endpoint value in
      (
        Moved-IsConsistent c s.chain (run_endpoint c json w endpoint value req s).1.chain inv
            (endpoint-Moved on_time endpoint value),
        (λ e. apart (sym store ∙ e ∙ path)),
        endpoint_agrees apart endpoint value,
      )

module _ (c : Crypto) (json : Json) where
  Served-agrees :
      (requests : List (World × Request)) (s : Server)
      → Served c json requests s
      → IsConsistent c s.chain
      → s.store ≢ s.wallet.path
      → let (replies, s') = serve_all c json requests s in
        IsConsistent c s'.chain × (IsSaved json s → IsSaved json s' ⊎ StoreFailed replies)
  unfolding serve_all serve_request
  Served-agrees [] s ready inv apart = (inv, λ h. inl h)
  Served-agrees ((w, req) ∷ rest) s (law, on_time, ready) inv apart =
      let (inv', apart', now) =
        answer_agrees c json w law req s inv on_time apart (dispatch req routes) in
      let (inv'', later) = Served-agrees rest (serve_request c json w req s).1 ready inv' apart' in
      (
        inv'',
        λ h. elim (now h) [
          | inl kept ↦ elim (later kept) [ inl k ↦ inl k | inr f ↦ inr (inr f) ]
          | inr failed ↦ inr (inl failed)
        ],
      )

  -- A server whose keystore is not its chain file, which starts on a consistent chain that its file
  -- holds, and whose miners meet `IsMiner` on clocks that are not behind the tip, handles any list of
  -- requests so that at the end the chain is consistent and Validate accepts it; and the file holds
  -- the chain and the pool in memory, or one of the replies was a 500 that says that the file could
  -- not be written.
  pub serve_all_agrees :
      (requests : List (World × Request)) (s : Server)
      → Served c json requests s
      → IsConsistent c s.chain
      → s.store ≢ s.wallet.path
      → IsSaved json s
      → let (replies, s') = serve_all c json requests s in
        IsConsistent c s'.chain
        × (Validate.validate c s'.chain.blocks ≡ ok tt)
        × (IsSaved json s' ⊎ StoreFailed replies)
  serve_all_agrees requests s ready inv apart saved =
      let (inv', kept) = Served-agrees requests s ready inv apart in
      (
        inv',
        (validate_exact c (serve_all c json requests s).1.chain.blocks).1 inv'.valid,
        kept saved,
      )
