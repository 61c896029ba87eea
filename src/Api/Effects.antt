-- ===== src/Api/Effects.antt =====
-- What a request that may change the chain answers, and what it leaves in the chain file.
use mathlib.Core.Path.{subst}
use toy_blockchain.Prelude.{
  ℕ, ◌<◌, ◌≤◌, ⊤, ◌≡◌, ◌⊎◌, inl, inr, refl, sym, Option, none, some, [], Text, ℤ, err, arith,
  Result-cases,
}
use toy_blockchain.Crypto.{Crypto}
use toy_blockchain.Go.Map.{lookup}
use toy_blockchain.Ledger.Transaction.{Transaction, LedgerError, new_coinbase, new_transfer}
use toy_blockchain.Ledger.Signature.{sign}
use toy_blockchain.Wallet.{key_pair}
use toy_blockchain.Ledger.Mempool.{add}
use toy_blockchain.Miner.Proofs.{IsMiner}
use toy_blockchain.Chain.Mine.{
  Chain, MineError, panicked, rejected, applying, search_failed, add_transaction,
}
use toy_blockchain.Chain.Mine
use toy_blockchain.Chain.Mining.{IsConsistent, mine_all_or_nothing}
use toy_blockchain.Store.{Json, StoreError, contents, save_atomic}
use toy_blockchain.World.{World}
use toy_blockchain.Api.Server.{
  Server, Body, Reply, reply, aborted, write_error, from_store, persist, account, minting, tx_view,
  sending, mined,
}
use toy_blockchain.Api.Handlers.{then_persist, faucet, create_transaction, mine}

-- The chain file holds the chain and the pool that the server has in memory.
abbrev pub IsSaved : Json → Server → Type 0
IsSaved json s = lookup s.store s.disk ≡ some (contents json s.chain.blocks s.chain.pool.pending)

abbrev pub IsSuccess : Reply → Type 0
IsSuccess (reply status body) = status < 300
IsSuccess aborted = ⊥

abbrev pub IsFailure : Reply → Type 0
IsFailure (reply status body) = 400 ≤ status
IsFailure aborted = ⊤

-- What a request that may change the chain amounts to. The reply is a success and the file holds
-- the chain as it is now; or the file could not be written, it is what it was, and the chain in
-- memory may have moved on from it; or the reply is a failure, and chain and disk are what they were.
abbrev pub Effect : Json → Server → Reply → Server → Type 0
Effect json s a s' =
    (IsSuccess a × IsSaved json s')
    ⊎ (((e : StoreError) × (a ≡ write_error 500 (from_store e))
          × (lookup s.store s'.disk ≡ lookup s.store s.disk))
        ⊎ (IsFailure a × (s'.chain ≡ s.chain) × (s'.disk ≡ s.disk)))

-- Saving after the chain of `s` was replaced by `ch`.
then_persist-Effect :
    (json : Json) (w : World) (status : ℕ) (body : Body) (s : Server) (ch : Chain)
    → status < 300
    → let (a, s') = then_persist json w (reply status body) (record s { chain = ch }) in
      Effect json s a s'
unfolding then_persist persist
then_persist-Effect json w status body s ch small =
    elim (save_atomic json w.faults s.store ch.blocks ch.pool.pending s.disk) [
      | inl (r, there) ↦ inl (ground (arith, r), ground (arith, r, there))
      | inr (e, r, kept) ↦ inr (inl (e, ground (arith, r), ground (arith, r, kept)))
    ]

module _ (c : Crypto) where
  add_refused_unchanged :
      (tx : Transaction) (ch : Chain) (e : LedgerError)
      → (add_transaction c tx ch).0 ≡ err e
      → (add_transaction c tx ch).1 ≡ ch
  unfolding add_transaction add
  add_refused_unchanged tx ch e h = ground arith

  module _ (json : Json) (w : World) (s : Server) where
    pub faucet-Effect :
        (body : Option (Text × ℤ))
        → Effect json s (faucet c json w body s).0 (faucet c json w body s).1
    unfolding faucet Mine.faucet
    faucet-Effect none = inr (inr (omega arith, refl, refl))
    faucet-Effect (some (to, amount)) =
        let tx = new_coinbase (account c s to).0 amount w.now_nano in
        let ch = (add_transaction c tx s.chain).1 in
        elim (Result-cases (add_transaction c tx s.chain).0) [
          | inl (u, r) ↦
              let answer = minting (account c s to).0 (account c s to).1 amount in
              let same : faucet c json w (some (to, amount)) s
                  ≡ then_persist json w (reply 202 answer) (record s { chain = ch }) =
                ground (arith, r) in
              subst (λ p. Effect json s p.0 p.1) (sym same)
                (then_persist-Effect json w 202 answer s ch (omega arith))
          | inr (e, r) ↦ inr (
              inr (
                ground (arith, r),
                ground (arith, r, add_refused_unchanged tx s.chain e r),
                ground (arith, r),
              ))
        ]

    pub create_transaction-Effect :
        (body : Option (Text × Text × ℤ))
        → Effect json s
            (create_transaction c json w body s).0
            (create_transaction c json w body s).1
    unfolding create_transaction
    create_transaction-Effect none = inr (inr (omega arith, refl, refl))
    create_transaction-Effect (some (from, to, amount)) =
        elim (Result-cases (key_pair c from s.wallet)) [
          | inr (e, k) ↦ inr (inr (ground (arith, k), ground (arith, k), ground (arith, k)))
          | inl (pair, k) ↦
              let tx = sign c pair (new_transfer [] (account c s to).0 amount w.now_nano) in
              let ch = (add_transaction c tx s.chain).1 in
              elim (Result-cases (add_transaction c tx s.chain).0) [
                | inl (u, r) ↦
                    let same : create_transaction c json w (some (from, to, amount)) s
                        ≡ then_persist json w (reply 202 (sending (tx_view c tx)))
                            (record s { chain = ch }) =
                      ground (arith, k, r) in
                    subst (λ p. Effect json s p.0 p.1) (sym same)
                      (then_persist-Effect json w 202 (sending (tx_view c tx)) s ch (omega arith))
                | inr (e, r) ↦ inr (
                    inr (
                      ground (arith, k, r),
                      ground (arith, k, r, add_refused_unchanged tx s.chain e r),
                      ground (arith, k, r),
                    ))
              ]
        ]

    mine-failed :
        (e : MineError)
        → Mine.mine c w.search w.now_nano w.now_unix s.chain ≡ (err e, s.chain)
        → IsFailure (mine c json w s).0
          × ((mine c json w s).1.chain ≡ s.chain)
          × ((mine c json w s).1.disk ≡ s.disk)
    unfolding mine
    mine-failed panicked h = ground (arith, h)
    mine-failed (rejected l) h = ground (arith, h)
    mine-failed (applying l) h = ground (arith, h)
    mine-failed (search_failed m) h = ground (arith, h)

    pub mine-Effect :
        IsMiner c w.search
        → IsConsistent c s.chain
        → Effect json s (mine c json w s).0 (mine c json w s).1
    unfolding mine
    mine-Effect law inv =
        elim (mine_all_or_nothing c w.search law w.now_nano w.now_unix s.chain inv) [
          | inl (r, ch, e, m) ↦
              let same : mine c json w s
                  ≡ then_persist json w (reply 201 (mined r)) (record s { chain = ch }) =
                ground (arith, e) in
              subst (λ p. Effect json s p.0 p.1) (sym same)
                (then_persist-Effect json w 201 (mined r) s ch (omega arith))
          | inr (e, h) ↦ inr (inr (mine-failed e h))
        ]
