-- ===== src/Tests/Chain.antt =====
-- The chain at concrete inputs.
use mathlib.Core.Path.{subst}
use toy_blockchain.Prelude.{
  some, ◌++◌, ◌∙◌, codes, ◌≡◌, ◌↔◌, ◌⊎◌, refl, false, [], ◌∷◌, ℤ, pos, ltb_ℤ, Result, ok, err,
  arith, ◌+64◌, ◌-64◌, ◌+ℤ◌, ◌-ℤ◌, wrap64, text_eq,
}
use toy_blockchain.Go.Map.{lookup, get, insert, erase}
use toy_blockchain.Go.Hex.{hex_encode}
use toy_blockchain.Tests.Toy.{toy, toy-IsCrypto}
use toy_blockchain.Tests.Block.{payment}
use toy_blockchain.Config.{Config, default}
use toy_blockchain.Chain.Reach.{InTime, Reached, begin, later, mint, extend, Reached-IsConsistent}
use toy_blockchain.Chain.Mine.{faucet, add_transaction, tip, tip_of}
use toy_blockchain.Ledger.Transaction.{is_coinbase, valid_address, all_allowed, is_allowed}
use toy_blockchain.Ledger.Signature
use toy_blockchain.Ledger.State.{new_state, can_apply, debit, credit}
use toy_blockchain.Ledger.Mempool.{new_mempool, peek, at_most}
use toy_blockchain.Ledger.Moves.{after}
use toy_blockchain.Ledger.Replay.{Accepted}
use toy_blockchain.Ledger.Pool.{IsQueued}
use toy_blockchain.Block.Header.{Block, compute_hash, meets_difficulty, has_prefix, new_block}
use toy_blockchain.Block.Genesis.{genesis}
use toy_blockchain.Miner.Search.{
  turn, MinerError, MinerResult, start, run, mine_with, attempt, take_turn, turn_at, step,
  worker_count, start_from, outcome, all_done,
}
use toy_blockchain.Miner.Proofs.{IsMiner, mine_under, mine_under-IsMiner}
use toy_blockchain.Chain.Validate.{validate}
use toy_blockchain.Chain.Mine.{
  Chain, MineError, new_chain, load, mine, candidate, build_body, tip, tip_of,
}
use toy_blockchain.Chain.Valid.{IsValidChain, validate_exact}
use toy_blockchain.Chain.Mining.{
  IsConsistent, Mined, grown, mine_all_or_nothing, mine_appends, append_block-ok, state-IsSound,
}
use toy_blockchain.Chain.Growth.{mine_validates_exactly}
use toy_blockchain.Chain.Extend.{chain_state, repeat_last, validate-repeat_last}
use toy_blockchain.Chain.Reload.{new_chain-IsConsistent, load_restores, load_sound}
use toy_blockchain.Block.Binding.{CollidesIn}
use toy_blockchain.Chain.Suffix.{AgreeAll, chain_inputs}
use toy_blockchain.Chain.History.{history_binding}

abbrev pub start_chain : Chain
start_chain = new_chain toy default

start_chain-valid : validate toy (genesis toy ∷ []) ≡ ok tt
unfolding new_chain
start_chain-valid =
    (validate_exact toy (genesis toy ∷ [])).1 (new_chain-IsConsistent toy default).valid

validate_exact_example :
    (validate toy (genesis toy ∷ genesis toy ∷ []) ≡ ok tt)
    ↔ IsValidChain toy (genesis toy ∷ genesis toy ∷ [])
validate_exact_example = validate_exact toy (genesis toy ∷ genesis toy ∷ [])

new_chain-IsConsistent_example : IsConsistent toy (new_chain toy default)
new_chain-IsConsistent_example = new_chain-IsConsistent toy default

start_chain-load : load toy default (genesis toy ∷ []) [] ≡ ok start_chain
unfolding new_chain new_mempool
start_chain-load = load_restores toy start_chain (new_chain-IsConsistent toy default) tt

load_restores_example :
    load toy start_chain.cfg start_chain.blocks start_chain.pool.pending ≡ ok start_chain
unfolding new_chain new_mempool
load_restores_example = load_restores toy start_chain (new_chain-IsConsistent toy default) tt

load_sound_example :
    IsConsistent toy start_chain
    × IsQueued toy start_chain.pool start_chain.state
    × (start_chain.blocks ≡ genesis toy ∷ [])
load_sound_example = load_sound toy default (genesis toy ∷ []) [] start_chain start_chain-load

abbrev pub free : Config
free = record default { difficulty = pos 0; mining_reward = pos 0 }

abbrev pub three_queued : Chain
three_queued = record (new_chain toy free) {
  pool = record { pending = payment 1 ∷ payment 2 ∷ payment 3 ∷ [] };
}

pub three_queued-IsConsistent : IsConsistent toy three_queued
unfolding new_chain
three_queued-IsConsistent =
    let inv = new_chain-IsConsistent toy free in record { valid = inv.valid; derived = inv.derived }

abbrev pub one_turn : Block → Result MinerError MinerResult
one_turn = mine_under toy (turn 0 ∷ []) (pos 1)

abbrev pub now : ℤ
now = pos 1800000000

mine_all_or_nothing_example :
    ((r : MinerResult) × (ch' : Chain) × (mine toy one_turn now now three_queued ≡ (ok r, ch'))
      × Mined toy one_turn
          (mine_under-IsMiner toy (turn 0 ∷ []) (pos 1))
          now
          now
          three_queued
          three_queued-IsConsistent
          r
          ch')
    ⊎ ((e : MineError) × (mine toy one_turn now now three_queued ≡ (err e, three_queued)))
mine_all_or_nothing_example =
    mine_all_or_nothing toy one_turn (mine_under-IsMiner toy (turn 0 ∷ []) (pos 1)) now now
      three_queued three_queued-IsConsistent

abbrev next_block : Block
next_block = attempt toy (candidate toy (genesis toy) three_queued.pool.pending now three_queued) 0

abbrev next_result : MinerResult
next_result = record { block = next_block; hashes = 1; workers = 1 }

abbrev next_chain : Chain
next_chain = grown toy next_result 3 three_queued

three-Accepted : Accepted toy three_queued.pool.pending new_state
unfolding new_state can_apply Signature.validate is_coinbase valid_address all_allowed is_allowed
    after debit credit lookup get insert erase text_eq ◌+64◌ ◌-64◌ ◌+ℤ◌ ◌-ℤ◌ wrap64
three-Accepted = (refl, (refl, (refl, tt)))

next_found :
    one_turn (candidate toy (genesis toy) three_queued.pool.pending now three_queued)
    ≡ ok next_result
unfolding mine_under mine_with run step turn_at take_turn start start_from worker_count outcome
    all_done meets_difficulty has_prefix candidate new_block compute_hash hex_encode new_chain
next_found = refl

one_turn-IsMiner : IsMiner toy one_turn
one_turn-IsMiner = mine_under-IsMiner toy (turn 0 ∷ []) (pos 1)

three_tip : tip three_queued ≡ some (genesis toy)
unfolding tip tip_of new_chain
three_tip = refl

three_built : build_body now three_queued ≡ some (three_queued.pool.pending, 3)
unfolding new_chain build_body peek at_most ◌-64◌ ◌-ℤ◌ wrap64
three_built = refl

next_mine : mine toy one_turn now now three_queued ≡ (ok next_result, next_chain)
unfolding new_chain candidate new_block
next_mine =
    mine_appends toy one_turn one_turn-IsMiner now now three_queued three_queued-IsConsistent
      three_queued.pool.pending 3 (genesis toy) next_result three_built three-Accepted three_tip
      next_found
    ∙ append_block-ok toy next_result 3 three_queued
        (state-IsSound toy three_queued three_queued-IsConsistent) three-Accepted

mine_validates_exactly_example :
    (next_chain.blocks ≡ three_queued.blocks ++ next_block ∷ [])
    × (next_block.timestamp ≡ now)
    × ((validate toy next_chain.blocks ≡ ok tt) ↔ (ltb_ℤ now (genesis toy).timestamp ≡ false))
mine_validates_exactly_example =
    mine_validates_exactly toy one_turn one_turn-IsMiner now now three_queued
      three_queued-IsConsistent next_result next_chain (genesis toy) next_mine three_tip

next_chain-valid : validate toy (genesis toy ∷ next_block ∷ []) ≡ ok tt
unfolding new_chain genesis new_block
next_chain-valid =
    (mine_validates_exactly toy one_turn one_turn-IsMiner now now three_queued
        three_queued-IsConsistent next_result next_chain (genesis toy) next_mine three_tip).2.1
      refl

history_binding_example :
    AgreeAll (genesis toy ∷ next_block ∷ []) (genesis toy ∷ next_block ∷ [])
    ⊎ CollidesIn toy
        (chain_inputs toy (genesis toy ∷ next_block ∷ []))
        (chain_inputs toy (genesis toy ∷ next_block ∷ []))
history_binding_example =
    history_binding toy toy-IsCrypto (genesis toy) (genesis toy) (next_block ∷ []) (next_block ∷ [])
      next_chain-valid next_chain-valid (omega arith) (omega arith) refl

next_block-transactions : next_block.transactions ≡ payment 1 ∷ payment 2 ∷ payment 3 ∷ []
unfolding candidate new_block
next_block-transactions = refl

again : can_apply toy (chain_state (genesis toy ∷ next_block ∷ []) new_state) (payment 3) ≡ ok tt
unfolding new_state can_apply Signature.validate is_coinbase valid_address all_allowed is_allowed
    after debit credit lookup get insert erase text_eq ◌+64◌ ◌-64◌ ◌+ℤ◌ ◌-ℤ◌ wrap64 candidate
    new_block genesis
again = refl

validate-repeat_last_example :
    validate toy
      (genesis toy ∷ repeat_last toy next_block (payment 1) (payment 2 ∷ payment 3 ∷ []) ∷ [])
    ≡ ok tt
validate-repeat_last_example =
    validate-repeat_last toy (genesis toy) [] next_block (payment 1) (payment 2 ∷ payment 3 ∷ [])
      next_chain-valid next_block-transactions refl (omega arith) again

abbrev funded_chain : Chain
funded_chain = (faucet toy (codes "bob") (pos 5) (pos 1) start_chain).1

in_time : InTime now funded_chain
unfolding new_chain faucet add_transaction tip tip_of genesis new_block
in_time t e =
    let same : genesis toy ≡ t = cc in subst (λ b. ltb_ℤ now b.timestamp ≡ false) same refl

three_calls : Reached toy default (mine toy one_turn now now funded_chain).1
three_calls =
    later (later begin (mint (codes "bob") (pos 5) (pos 1)))
      (extend one_turn now now (mine_under-IsMiner toy (turn 0 ∷ []) (pos 1)) in_time)

Reached-IsConsistent_example :
    IsConsistent toy (mine toy one_turn now now funded_chain).1
    × (validate toy (mine toy one_turn now now funded_chain).1.blocks ≡ ok tt)
Reached-IsConsistent_example =
    Reached-IsConsistent toy default (mine toy one_turn now now funded_chain).1 three_calls
