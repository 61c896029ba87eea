-- ===== src/Tests/Ledger.antt =====
-- The ledger at concrete inputs.
use toy_blockchain.Prelude.{
  ℕ, ◌+◌, ◌≤◌, ◌≡◌, ◌≢◌, ◌↔◌, ◌⊎◌, refl, false, [], ◌∷◌, Text, codes, text_eq, text_eq_iff, pos,
  max_int64, wrap64, ok, err, replicate, arith, ◌-64◌, ◌-ℤ◌,
}
use toy_blockchain.Go.Map.{lookup, get}
use toy_blockchain.Go.Hex.{hex_encode}
use toy_blockchain.Tests.Toy.{toy, toy-IsCrypto}
use toy_blockchain.Crypto.{Collides}
use toy_blockchain.Ledger.Transaction.{
  Transaction, LedgerError, in_transaction, is_coinbase, canonical_bytes, valid_address,
  all_allowed, is_allowed,
}
use toy_blockchain.Ledger.Signature.{KeyPair, validate, address, address_of, sign}
use toy_blockchain.Ledger.Listing.{Ascending, find, accounts_exact}
use toy_blockchain.Ledger.State.{accounts, State, can_apply, apply_all, supply}
use toy_blockchain.Ledger.Unordered.{SameEntries, apply_all_unordered}
use toy_blockchain.Ledger.Mempool.{Mempool, add}
use toy_blockchain.Ledger.Balances.{IsSound}
use toy_blockchain.Ledger.Moves.{coins}
use toy_blockchain.Ledger.Replay.{view, run, Accepted, StopsAt, move_all, minted_all}
use toy_blockchain.Ledger.Authority.{IsAuthorised, validate_sound, id-injective}
use toy_blockchain.Ledger.Signing.{IsKeyPair, sign-valid}
use toy_blockchain.Ledger.Refinement.{apply_all_refines, can_apply_exact, supply_exact}
use toy_blockchain.Ledger.Pool.{add_exact, Accepted-balance, spent, received}

abbrev mint : Transaction
mint = record {
  from = [];
  to = codes "bob";
  amount = pos 5;
  timestamp = pos 1;
  pub_key = [];
  signature = [];
}

abbrev pub two_accounts : State
two_accounts = record { balances = (codes "ann", pos 7) ∷ (codes "bob", pos 3) ∷ [] }

pub two_accounts-IsSound : IsSound two_accounts
unfolding lookup text_eq
two_accounts-IsSound = record {
  distinct = (refl, (refl, tt));
  in_range = ((omega arith, omega arith), ((omega arith, omega arith), tt));
}

mint-validate : validate toy mint ≡ ok tt
unfolding validate is_coinbase valid_address all_allowed is_allowed text_eq
mint-validate = refl

mint-can_apply : can_apply toy two_accounts mint ≡ ok tt
unfolding can_apply validate is_coinbase valid_address all_allowed is_allowed text_eq lookup get
    ◌-64◌ ◌-ℤ◌ wrap64
mint-can_apply = refl

id-injective_example : (mint ≡ mint) ⊎ Collides toy (canonical_bytes mint) (canonical_bytes mint)
id-injective_example = id-injective toy mint mint mint-validate mint-validate toy-IsCrypto refl

supply_exact_example :
    (supply two_accounts ≡ wrap64 (pos (coins two_accounts)))
    × ((supply two_accounts ≡ pos (coins two_accounts)) ↔ (coins two_accounts ≤ max_int64))
supply_exact_example = supply_exact two_accounts two_accounts-IsSound

can_apply_exact_example : (can_apply toy two_accounts mint ≡ ok tt) ↔ (
    (validate toy mint ≡ ok tt)
    × (is_coinbase mint ≡ false → 5 ≤ view two_accounts [])
    × (view two_accounts (codes "bob") + 5 ≤ max_int64))
can_apply_exact_example = can_apply_exact toy two_accounts two_accounts-IsSound mint

apply_all_refines_example :
    ((t : State) × (apply_all toy (mint ∷ mint ∷ []) two_accounts ≡ (ok tt, t))
      × IsSound t
      × ((j : Text) → view t j ≡ move_all (mint ∷ mint ∷ []) (view two_accounts) j)
      × (coins t ≡ coins two_accounts + minted_all (mint ∷ mint ∷ [])))
    ⊎ ((k : ℕ) × (tx : Transaction) × (e : LedgerError) × StopsAt toy
          (mint ∷ mint ∷ [])
          two_accounts
          k
          tx
          e
        × (apply_all toy (mint ∷ mint ∷ []) two_accounts
            ≡ (err (in_transaction k tx e), two_accounts)))
apply_all_refines_example =
    apply_all_refines toy two_accounts two_accounts-IsSound (mint ∷ mint ∷ [])

Accepted-balance_example :
    view (run (mint ∷ []) two_accounts) (codes "bob") + spent (codes "bob") (mint ∷ [])
    ≡ view two_accounts (codes "bob") + received (codes "bob") (mint ∷ [])
Accepted-balance_example =
    Accepted-balance toy (codes "bob") (mint ∷ []) two_accounts two_accounts-IsSound
      (mint-can_apply, tt)

abbrev pool_of_two : Mempool
pool_of_two = record { pending = mint ∷ mint ∷ [] }

add_exact_example :
    (Accepted toy (mint ∷ mint ∷ mint ∷ []) two_accounts
      × (add toy mint two_accounts pool_of_two
          ≡ (ok tt, record { pending = mint ∷ mint ∷ mint ∷ [] })))
    ⊎ ((e : LedgerError) × (add toy mint two_accounts pool_of_two ≡ (err e, pool_of_two))
        × ¬ (Accepted toy (mint ∷ mint ∷ mint ∷ []) two_accounts))
add_exact_example = add_exact toy mint two_accounts pool_of_two two_accounts-IsSound

validate_sound_example :
    ((mint.from ≡ []) × (mint.pub_key ≡ []) × (mint.signature ≡ []))
    ⊎ ((mint.from ≢ []) × (mint.from ≢ mint.to) × IsAuthorised toy mint)
validate_sound_example = validate_sound toy mint mint-validate

abbrev pub pair : KeyPair
pair = record { private_key = replicate 64 7; public_key = replicate 32 7 }

abbrev pub to_bob : Transaction
to_bob = record {
  from = [];
  to = codes "bob";
  amount = pos 5;
  timestamp = pos 1;
  pub_key = [];
  signature = [];
}

pub pair-IsKeyPair : IsKeyPair toy pair
pair-IsKeyPair = record { size = refl; half = refl }

pub pair-address : address toy pair ≢ codes "bob"
unfolding address address_of hex_encode
pair-address e = cc

sign-valid_example :
    (validate toy (sign toy pair to_bob) ≡ ok tt) × ((sign toy pair to_bob).from ≡ address toy pair)
unfolding valid_address all_allowed is_allowed text_eq
sign-valid_example = sign-valid toy toy-IsCrypto pair pair-IsKeyPair to_bob refl refl pair-address

accounts_exact_example :
    Ascending (accounts two_accounts)
    × ((j : Text) → find j (accounts two_accounts) ≡ lookup j two_accounts.balances)
accounts_exact_example = accounts_exact two_accounts two_accounts-IsSound

-- The accounts in the other order.
abbrev turned : State
turned = record { balances = (codes "bob", pos 3) ∷ (codes "ann", pos 7) ∷ [] }

turned-IsSound : IsSound turned
unfolding lookup text_eq
turned-IsSound = record {
  distinct = (refl, (refl, tt));
  in_range = ((omega arith, omega arith), ((omega arith, omega arith), tt));
}

turned_same : SameEntries two_accounts turned
unfolding lookup
turned_same j = ground (arith, text_eq_iff (codes "ann") j, text_eq_iff (codes "bob") j)

apply_all_unordered_example :
    let (r, t) = apply_all toy (mint ∷ mint ∷ []) two_accounts in
    let (r', t') = apply_all toy (mint ∷ mint ∷ []) turned in
    (r ≡ r') × SameEntries t t' × (accounts t ≡ accounts t') × (supply t ≡ supply t')
apply_all_unordered_example =
    apply_all_unordered toy (mint ∷ mint ∷ []) two_accounts turned two_accounts-IsSound
      turned-IsSound turned_same
