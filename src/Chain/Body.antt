-- ===== src/Chain/Body.antt =====
-- What a validated configuration means for the blocks that `buildBody` packs.
use toy_blockchain.Prelude.{
  ℕ, ◌-◌, ◌≤◌, ◌<◌, ◌≡◌, some, List, ◌∷◌, length, length-take, ℤ, pos, ltb_ℤ, max_int64, ◌-64◌,
  ◌-ℤ◌, wrap64, ok, arith, Bool-cases, inl, inr, take,
}
use toy_blockchain.Config
use toy_blockchain.Ledger.Transaction.{Transaction, new_coinbase}
use toy_blockchain.Ledger.Mempool.{peek, at_most}
use toy_blockchain.Chain.Mine.{Chain, build_body}

pub one_less : (m : ℕ) → 0 < m → m ≤ max_int64 → pos m -64 pos 1 ≡ pos (m - 1)
unfolding ◌-64◌ ◌-ℤ◌ wrap64
one_less m p h = ground arith

pub validated_room :
    (cfg : Config.Config) (m : ℕ)
    → cfg.max_tx_per_block ≡ pos m
    → Config.validate cfg ≡ ok tt
    → 0 < m
unfolding Config.validate
validated_room cfg m e h = ground arith

at_most_bound : (n len : ℕ) → at_most n len ≤ n
unfolding at_most
at_most_bound n len = ground arith

-- Under a configuration that Validate accepts, `buildBody` does not panic, and packs at most
-- `max_tx_per_block` transactions, the reward included, where that setting is an int.
pub build_body-bounded :
    (nano : ℤ) (ch : Chain) (m : ℕ)
    → ch.cfg.max_tx_per_block ≡ pos m
    → m ≤ max_int64
    → Config.validate ch.cfg ≡ ok tt
    → (body : List Transaction) × (n : ℕ) × (build_body nano ch ≡ some (body, n))
      × (length body ≤ m)
unfolding build_body peek
build_body-bounded nano ch m e small valid =
    let room = validated_room ch.cfg m e valid in
    let queued : ℕ → List Transaction =
      λ n. take (at_most n (length ch.pool.pending)) ch.pool.pending in
    let reward = new_coinbase ch.cfg.miner_address ch.cfg.mining_reward nano in
    let short : (n : ℕ) → length (queued n) ≤ n = λ n. omega (
      arith,
      at_most_bound n (length ch.pool.pending),
      length-take (at_most n (length ch.pool.pending)) ch.pool.pending,
    ) in
    elim (Bool-cases (ltb_ℤ (pos 0) ch.cfg.mining_reward)) [
      | inl r ↦ (
        reward ∷ queued (m - 1),
        length (queued (m - 1)),
        ground (arith, e, r, one_less m room small),
        omega (arith, short (m - 1), room),
      )
      | inr r ↦ (queued m, length (queued m), ground (arith, e, r), short m)
    ]
