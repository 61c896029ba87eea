-- ===== src/Api/Calls.antt =====
-- The handlers of internal/api/handlers.go in terms of the calls of internal/chain that they make.
use mathlib.Core.Path.{subst}
use toy_blockchain.Prelude.{
  ◌≡◌, inl, inr, refl, sym, Option, none, some, [], Text, ℤ, arith, Result-cases,
}
use toy_blockchain.Crypto.{Crypto}
use toy_blockchain.Ledger.Transaction.{new_transfer}
use toy_blockchain.Ledger.Signature.{sign}
use toy_blockchain.Wallet.{key_pair}
use toy_blockchain.Miner.Proofs.{IsMiner}
use toy_blockchain.Chain.Mine.{
  Chain, MineError, panicked, rejected, applying, search_failed, add_transaction,
}
use toy_blockchain.Chain.Mine
use toy_blockchain.Chain.Reach.{InTime, Step, queue, mint, extend, Moved}
use toy_blockchain.Store.{Json}
use toy_blockchain.World.{World}
use toy_blockchain.Api.Server.{
  Server, Reply, reply, persist, account, minting, tx_view, sending, mined,
}
use toy_blockchain.Api.Handlers.{then_persist, faucet, create_transaction, mine}

then_persist-chain :
    (json : Json) (w : World) (a : Reply) (s : Server) → (then_persist json w a s).1.chain ≡ s.chain
unfolding then_persist persist
then_persist-chain json w a s = ground arith

module _ (c : Crypto) (json : Json) (w : World) (s : Server) where
  faucet-chain :
      (to : Text) (amount : ℤ)
      → (faucet c json w (some (to, amount)) s).1.chain
        ≡ (Mine.faucet c (account c s to).0 amount w.now_nano s.chain).1
  unfolding faucet
  faucet-chain to amount =
      let (r, ch) = Mine.faucet c (account c s to).0 amount w.now_nano s.chain in
      ground (
        arith,
        then_persist-chain json w (reply 202 (minting (account c s to).0 (account c s to).1 amount))
            (record s { chain = ch }),
      )

  pub faucet-Moved : (body : Option (Text × ℤ)) → Moved c s.chain (faucet c json w body s).1.chain
  unfolding faucet
  faucet-Moved none = inl refl
  faucet-Moved (some (to, amount)) = inr (
      subst (Step c s.chain) (sym (faucet-chain to amount))
        (mint (account c s to).0 amount w.now_nano))

  pub create_transaction-Moved :
      (body : Option (Text × Text × ℤ))
      → Moved c s.chain (create_transaction c json w body s).1.chain
  unfolding create_transaction
  create_transaction-Moved none = inl refl
  create_transaction-Moved (some (from, to, amount)) =
      elim (Result-cases (key_pair c from s.wallet)) [
        | inr (e, k) ↦ inl (ground (arith, k))
        | inl (pair, k) ↦
            let tx = sign c pair (new_transfer [] (account c s to).0 amount w.now_nano) in
            let ch = (add_transaction c tx s.chain).1 in
            let same : (create_transaction c json w (some (from, to, amount)) s).1.chain ≡ ch =
              ground (
                arith,
                k,
                then_persist-chain json w (reply 202 (sending (tx_view c tx)))
                    (record s { chain = ch }),
              ) in
            inr (subst (Step c s.chain) (sym same) (queue tx))
      ]

  mine-chain : (mine c json w s).1.chain ≡ (Mine.mine c w.search w.now_nano w.now_unix s.chain).1
  unfolding mine
  mine-chain =
      let ch = (Mine.mine c w.search w.now_nano w.now_unix s.chain).1 in
      elim (Result-cases (Mine.mine c w.search w.now_nano w.now_unix s.chain).0) [
        | inl (r, e) ↦
            ground
              (arith, e, then_persist-chain json w (reply 201 (mined r)) (record s { chain = ch }))
        | inr (panicked, e) ↦ ground (arith, e)
        | inr (rejected l, e) ↦ ground (arith, e)
        | inr (applying l, e) ↦ ground (arith, e)
        | inr (search_failed m, e) ↦ ground (arith, e)
      ]

  pub mine-Moved :
      IsMiner c w.search → InTime w.now_unix s.chain → Moved c s.chain (mine c json w s).1.chain
  mine-Moved law on_time =
      inr (
        subst (Step c s.chain) (sym mine-chain) (extend w.search w.now_nano w.now_unix law on_time))
