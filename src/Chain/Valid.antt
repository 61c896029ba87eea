-- ===== src/Chain/Valid.antt =====
-- What a chain accepted by Validate (internal/chain/validate.go) is, without the order of the
-- checks and their errors.
use toy_blockchain.Prelude.{
  ◌+◌, ◌%◌, ◌^◌, ◌≡◌, refl, ap, sym, ◌∙◌, ◌↔◌, inl, inr, true, false, Option, none, some, List, [],
  ◌∷◌, ⊤, text_eq_iff, text_eq_complete, arith, ltb_ℤ, ok,
}
use toy_blockchain.Crypto.{Crypto}
use toy_blockchain.Ledger.State.{State, new_state, apply_all}
use toy_blockchain.Ledger.Balances.{IsSound}
use toy_blockchain.Ledger.Replay.{Accepted, run, apply_all-cases, apply_all-ok}
use toy_blockchain.Ledger.Pool.{run-IsSound}
use toy_blockchain.Block.Merkle.{merkle_root}
use toy_blockchain.Block.Header.{
  Block, compute_hash, has_valid_hash, has_valid_merkle_root, meets_difficulty,
}
use toy_blockchain.Block.Genesis.{genesis, genesis_prev_hash}
use toy_blockchain.Chain.Validate.{
  check_link, check_difficulty, check_block, validate_from, validate,
}

-- A block follows another.
pub record Follows (prev b : Block) : Type 0 where
  pub height : b.height ≡ (prev.height + 1) % 2 ^ 64
  pub timestamp : ltb_ℤ b.timestamp prev.timestamp ≡ false
  pub prev_hash : b.prev_hash ≡ prev.hash

abbrev pub Linked : Option Block → Block → Type 0
Linked none b = ⊤
Linked (some prev) b = Follows prev b

-- A block is consistent in itself and carries its proof of work.
pub record IsSealed (c : Crypto) (b : Block) : Type 0 where
  pub merkle : b.merkle_root ≡ merkle_root c b.transactions
  pub hash : b.hash ≡ compute_hash c b
  pub work : meets_difficulty b.hash b.difficulty ≡ some true

-- From a previous block and a state on, each block follows the one before it, is sealed, and its
-- transactions are accepted on the balances that the blocks before it imply.
abbrev pub ValidFrom : Crypto → Option Block → List Block → State → Type 0
ValidFrom c prev [] s = ⊤
ValidFrom c prev (b ∷ bs) s =
    Linked prev b
    × IsSealed c b
    × Accepted c b.transactions s
    × ValidFrom c (some b) bs (run b.transactions s)

abbrev pub IsValidChain : Crypto → List Block → Type 0
IsValidChain c [] = ⊥
IsValidChain c (b ∷ bs) =
    (b.hash ≡ (genesis c).hash)
    × (b.prev_hash ≡ genesis_prev_hash)
    × ValidFrom c none (b ∷ bs) new_state

pub new_state-IsSound : IsSound new_state
unfolding new_state
new_state-IsSound = record { distinct = tt; in_range = tt }

check_link_exact : (prev : Option Block) (b : Block) → (check_link prev b ≡ ok tt) ↔ Linked prev b
unfolding check_link
check_link_exact none b = ((λ h. tt), (λ h. refl))
check_link_exact (some p) b = (
  (λ h. record {
    height = ground arith;
    timestamp = ground arith;
    prev_hash = (text_eq_iff b.prev_hash p.hash).0 (ground arith);
  }),
  (λ l. ground (arith, l.height, l.timestamp, text_eq_complete b.prev_hash p.hash l.prev_hash)),
)

module _ (c : Crypto) where
  check_block-IsSealed :
      (prev : Option Block) (b : Block)
      → check_block c prev b ≡ ok tt
      → Linked prev b × IsSealed c b
  unfolding check_block check_difficulty has_valid_hash has_valid_merkle_root
  check_block-IsSealed prev b h = (
    (check_link_exact prev b).0 (ground arith),
    record {
      merkle = (text_eq_iff b.merkle_root (merkle_root c b.transactions)).0 (ground arith);
      hash = (text_eq_iff b.hash (compute_hash c b)).0 (ground arith);
      work = ground arith;
    },
  )

  check_block-ok :
      (prev : Option Block) (b : Block)
      → Linked prev b
      → IsSealed c b
      → check_block c prev b ≡ ok tt
  unfolding check_block check_difficulty has_valid_hash has_valid_merkle_root
  check_block-ok prev b l v = ground (
    arith,
    (check_link_exact prev b).1 l,
    text_eq_complete b.merkle_root (merkle_root c b.transactions) v.merkle,
    text_eq_complete b.hash (compute_hash c b) v.hash,
    v.work,
  )

  validate_from-cons :
      (prev : Option Block) (b : Block) (bs : List Block) (s : State)
      → validate_from c prev (b ∷ bs) s ≡ ok tt
      → (check_block c prev b ≡ ok tt)
        × ((apply_all c b.transactions s).0 ≡ ok tt)
        × (validate_from c (some b) bs (apply_all c b.transactions s).1 ≡ ok tt)
  unfolding validate_from
  validate_from-cons prev b bs s h = (ground arith, ground arith, ground arith)

  validate_from_sound :
      (prev : Option Block) (bs : List Block) (s : State)
      → IsSound s
      → validate_from c prev bs s ≡ ok tt
      → ValidFrom c prev bs s
  validate_from_sound prev [] s sound h = tt
  validate_from_sound prev (b ∷ bs) s sound h =
      let (checked, applied, rest) = validate_from-cons prev b bs s h in
      let (linked, seal) = check_block-IsSealed prev b checked in
      elim (apply_all-cases c b.transactions s sound) [
        | inl (accepted, r) ↦ (
          linked,
          seal,
          accepted,
          validate_from_sound (some b) bs (run b.transactions s)
              (run-IsSound c b.transactions s sound accepted)
              (ap (λ p. validate_from c (some b) bs p.1) (sym r) ∙ rest),
        )
        | inr (k, tx, e, stop, r) ↦ cc (r, applied)
      ]

  validate_from_complete :
      (prev : Option Block) (bs : List Block) (s : State)
      → IsSound s
      → ValidFrom c prev bs s
      → validate_from c prev bs s ≡ ok tt
  unfolding validate_from
  validate_from_complete prev [] s sound v = refl
  validate_from_complete prev (b ∷ bs) s sound (linked, seal, accepted, rest) = ground (
    arith,
    check_block-ok prev b linked seal,
    apply_all-ok c b.transactions s sound accepted,
    validate_from_complete (some b) bs (run b.transactions s)
        (run-IsSound c b.transactions s sound accepted) rest,
  )

  -- `Validate` returns nil exactly for the chains that begin with the hash and the link of the
  -- genesis block and in which every block follows the one before it, is sealed by its Merkle
  -- root, its hash and its proof of work, and spends only what the blocks before it allow.
  pub validate_exact : (blocks : List Block) → (validate c blocks ≡ ok tt) ↔ IsValidChain c blocks
  unfolding validate
  validate_exact [] = ((λ h. cc), (λ h. absurd h))
  validate_exact (b ∷ bs) = (
    (λ h. (
      (text_eq_iff b.hash (genesis c).hash).0 (ground arith),
      (text_eq_iff b.prev_hash genesis_prev_hash).0 (ground arith),
      validate_from_sound none (b ∷ bs) new_state new_state-IsSound (ground arith),
    )),
    (λ (first, link, rest). ground (
      arith,
      text_eq_complete b.hash (genesis c).hash first,
      text_eq_complete b.prev_hash genesis_prev_hash link,
      validate_from_complete none (b ∷ bs) new_state new_state-IsSound rest,
    )),
  )
