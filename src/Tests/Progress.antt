-- ===== src/Tests/Progress.antt =====
-- Settings, mining and spellings of a signature at concrete inputs.
use toy_blockchain.Prelude.{
  ◌≡◌, ◌≢◌, ◌⊎◌, ◌++◌, refl, [], ◌∷◌, Text, codes, text_eq, pos, ok, err, arith, ◌-64◌, ◌-ℤ◌,
  wrap64,
}
use toy_blockchain.Go.Map.{Map, lookup, get}
use toy_blockchain.Crypto.{Collides}
use toy_blockchain.Tests.Toy.{toy, toy-IsCrypto}
use toy_blockchain.Go.Hex.{hex_encode}
use toy_blockchain.Ledger.Balances.{IsSound}
use toy_blockchain.Ledger.Refinement.{can_apply_exact}
use toy_blockchain.Ledger.Signing.{sign-valid}
use toy_blockchain.Tests.Ledger.{pair, pair-IsKeyPair, pair-address, to_bob}
use toy_blockchain.Tests.Chain.{start_chain, one_turn, now}
use toy_blockchain.Config.{
  Config, default, resolve, validate, env_int, env_str, getenv, atoi, read_digits,
}
use toy_blockchain.Config.Bounds.{IsUsable}
use toy_blockchain.Chain.Stuck.{mine_stuck}
use toy_blockchain.Chain.Alive.{HasRoom, Lived, fresh, onward, Lived-mine}
use toy_blockchain.Chain.Reach.{mint}
use toy_blockchain.Ledger.Mempool.{add, new_mempool}
use toy_blockchain.Ledger.State.{clone, copy_entries, apply_all, apply_from}
use toy_blockchain.Chain.Mine.{faucet, add_transaction}
use toy_blockchain.Chain.Mine.{rejected}
use toy_blockchain.Ledger.Transaction.{
  Transaction, in_transaction, bad_character, new_coinbase, is_coinbase, valid_address, all_allowed,
  is_allowed, canonical_bytes, recipient,
}
use toy_blockchain.Ledger.Signature
use toy_blockchain.Ledger.Signature.{id, sign, address, address_of}
use toy_blockchain.Ledger.State.{State, new_state, can_apply}
use toy_blockchain.Ledger.Pool.{IsQueued}
use toy_blockchain.Ledger.Malleable.{respelled, can_apply-respelled}
use toy_blockchain.Block.Header.{Block}
use toy_blockchain.Miner.Search.{MinerError, MinerResult, turn}
use toy_blockchain.Miner.Proofs.{mine_under-IsMiner}
use toy_blockchain.Chain.Mine.{Chain, mine, search_failed, new_chain}

abbrev easy_env : Map Text
easy_env = (codes "TBC_DIFFICULTY", codes "2") ∷ []

abbrev easy : Config
easy = record default { difficulty = pos 2 }

easy_resolved : resolve easy_env ≡ ok easy
unfolding resolve validate env_int env_str getenv get lookup text_eq atoi read_digits
easy_resolved = refl

default-IsUsable : IsUsable default
unfolding text_eq
default-IsUsable = record {
  difficulty = (4, refl, omega arith, omega arith);
  max_tx = (10, refl, omega arith, omega arith);
  reward = (50, refl, omega arith);
  named = ((λ e. cc), (λ e. cc), (λ e. cc), λ e. cc);
}

good_miner : valid_address recipient default.miner_address ≡ ok tt
unfolding valid_address all_allowed is_allowed text_eq
good_miner = refl

-- One payment from the faucet is queued.
abbrev waiting : Chain
waiting = (faucet toy (codes "bob") (pos 5) now start_chain).1

start_room : HasRoom start_chain
unfolding new_chain new_state new_mempool
start_room = omega arith

waiting_room : HasRoom waiting
unfolding new_chain new_state new_mempool faucet add_transaction new_coinbase add clone copy_entries
    apply_all apply_from can_apply Signature.validate is_coinbase valid_address all_allowed
    is_allowed text_eq lookup get ◌-64◌ ◌-ℤ◌ wrap64
waiting_room = omega arith

waiting-Lived : Lived toy default waiting
waiting-Lived = onward fresh start_room (mint (codes "bob") (pos 5) now)

Lived-mine_example :
    ((r : MinerResult) × (ch : Chain) × (mine toy one_turn now now waiting ≡ (ok r, ch))
      × (ch.blocks ≡ waiting.blocks ++ r.block ∷ [])
      × IsQueued toy ch.pool ch.state)
    ⊎ ((e : MinerError) × (b : Block) × (one_turn b ≡ err e)
        × (mine toy one_turn now now waiting ≡ (err (search_failed e), waiting)))
Lived-mine_example =
    Lived-mine toy default default-IsUsable good_miner waiting waiting-Lived waiting_room one_turn
      (mine_under-IsMiner toy (turn 0 ∷ []) (pos 1)) now now

-- The holder of the key has seven coins and sends five.
abbrev rich : State
rich = record { balances = (address toy pair, pos 7) ∷ [] }

abbrev signed : Transaction
signed = sign toy pair to_bob

rich-IsSound : IsSound rich
unfolding lookup
rich-IsSound = record { distinct = (refl, tt); in_range = ((omega arith, omega arith), tt) }

signed-can_apply : can_apply toy rich signed ≡ ok tt
unfolding sign lookup get text_eq valid_address all_allowed is_allowed is_coinbase address
    address_of hex_encode
signed-can_apply = (can_apply_exact toy rich rich-IsSound signed).1 (
  (sign-valid toy toy-IsCrypto pair pair-IsKeyPair to_bob refl refl pair-address).0,
  (λ e. omega arith),
  omega arith,
)

can_apply-respelled_example :
    (can_apply toy rich (respelled signed) ≡ ok tt)
    × ((id toy (respelled signed) ≢ id toy signed)
        ⊎ ((respelled signed ≡ signed)
            ⊎ Collides toy (canonical_bytes (respelled signed)) (canonical_bytes signed)))
can_apply-respelled_example = can_apply-respelled toy signed toy-IsCrypto rich signed-can_apply

-- A miner address with a space.
abbrev nameless : Chain
nameless = record start_chain { cfg = record default { miner_address = codes "no one" } }

nameless-IsUsable : IsUsable nameless.cfg
unfolding text_eq
nameless-IsUsable = record {
  difficulty = (4, refl, omega arith, omega arith);
  max_tx = (10, refl, omega arith, omega arith);
  reward = (50, refl, omega arith);
  named = ((λ e. cc), (λ e. cc), (λ e. cc), λ e. cc);
}

bad_miner :
    valid_address recipient (codes "no one") ≡ err (bad_character recipient (codes "no one"))
unfolding valid_address all_allowed is_allowed text_eq
bad_miner = refl

mine_stuck_example : mine toy one_turn now now nameless ≡ (
  err (
      rejected (
        in_transaction 0
          (new_coinbase (codes "no one") (pos 50) now)
          (bad_character recipient (codes "no one")))),
  nameless,
)
mine_stuck_example =
    mine_stuck toy one_turn now now nameless (bad_character recipient (codes "no one"))
      nameless-IsUsable refl bad_miner
