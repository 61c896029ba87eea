-- ===== src/Block/Link.antt =====
-- The hash of a block (internal/block/block.go) as a commitment to its header, and the difficulty
-- test.
use toy_blockchain.Prelude.{
  ℕ, zero, suc, ◌≡◌, refl, ap, ◌≢◌, ◌⊎◌, ◌↔◌, inl, inr, true, ◌==◌, ==_iff, &&-eq-true, List, [],
  ◌∷◌, ◌++◌, drop, Text, length, arith, Free, split_at_separator, pos, replicate, some,
  length-append, length-replicate, map,
}
use toy_blockchain.Go.Decimal.{
  format_uint, format_int, format_uint-injective, format_int-injective, format_uint-Free,
  format_int-Free,
}
use toy_blockchain.Go.Hex.{hex_encode-injective, hex_encode-Free}
use toy_blockchain.Crypto.{Crypto, IsCrypto, Collides}
use toy_blockchain.Ledger.Transaction.{Transaction}
use toy_blockchain.Ledger.Signature.{hash}
use toy_blockchain.Block.Merkle.{merkle_root, root_of}
use toy_blockchain.Block.Header.{Block, hash_preimage, compute_hash, has_prefix, meets_difficulty}
use toy_blockchain.Block.Binding.{same_or_collide}
use toy_blockchain.Block.Commitment.{root_of-IsByte}

-- Two blocks agree in every field that feeds the hash.
pub record SameHeader (a b : Block) : Type 0 where
  pub height : a.height ≡ b.height
  pub timestamp : a.timestamp ≡ b.timestamp
  pub prev_hash : a.prev_hash ≡ b.prev_hash
  pub merkle_root : a.merkle_root ≡ b.merkle_root
  pub difficulty : a.difficulty ≡ b.difficulty
  pub nonce : a.nonce ≡ b.nonce

-- The two fields that hold digests have no separator in them.
pub record HasDigests (b : Block) : Type 0 where
  pub prev_hash : Free b'|' b.prev_hash
  pub merkle_root : Free b'|' b.merkle_root

-- The preimage determines the header, where the digests are free of the separator.
pub hash_preimage-injective :
    (a b : Block) → HasDigests a → HasDigests b → hash_preimage a ≡ hash_preimage b → SameHeader a b
unfolding hash_preimage
hash_preimage-injective a b ha hb e =
    let (height, e1) =
      split_at_separator b'|' (format_uint a.height) (format_uint b.height)
        (format_int a.timestamp
          ++ b'|'
            ∷ (a.prev_hash
                ++ b'|'
                  ∷ (a.merkle_root
                      ++ b'|' ∷ (format_int a.difficulty ++ b'|' ∷ format_uint a.nonce))))
        (format_int b.timestamp
          ++ b'|'
            ∷ (b.prev_hash
                ++ b'|'
                  ∷ (b.merkle_root
                      ++ b'|' ∷ (format_int b.difficulty ++ b'|' ∷ format_uint b.nonce))))
        (format_uint-Free b'|' a.height (omega arith))
        (format_uint-Free b'|' b.height (omega arith)) (ap (λ x. drop 6 x) e) in
    let (timestamp, e2) =
      split_at_separator b'|' (format_int a.timestamp) (format_int b.timestamp)
        (a.prev_hash
          ++ b'|'
            ∷ (a.merkle_root ++ b'|' ∷ (format_int a.difficulty ++ b'|' ∷ format_uint a.nonce)))
        (b.prev_hash
          ++ b'|'
            ∷ (b.merkle_root ++ b'|' ∷ (format_int b.difficulty ++ b'|' ∷ format_uint b.nonce)))
        (format_int-Free b'|' a.timestamp (omega arith))
        (format_int-Free b'|' b.timestamp (omega arith)) e1 in
    let (prev_hash, e3) =
      split_at_separator b'|' a.prev_hash b.prev_hash
        (a.merkle_root ++ b'|' ∷ (format_int a.difficulty ++ b'|' ∷ format_uint a.nonce))
        (b.merkle_root ++ b'|' ∷ (format_int b.difficulty ++ b'|' ∷ format_uint b.nonce))
        ha.prev_hash hb.prev_hash e2 in
    let (merkle, e4) =
      split_at_separator b'|' a.merkle_root b.merkle_root
        (format_int a.difficulty ++ b'|' ∷ format_uint a.nonce)
        (format_int b.difficulty ++ b'|' ∷ format_uint b.nonce) ha.merkle_root hb.merkle_root e3 in
    let (difficulty, nonce) =
      split_at_separator b'|' (format_int a.difficulty) (format_int b.difficulty)
        (format_uint a.nonce) (format_uint b.nonce)
        (format_int-Free b'|' a.difficulty (omega arith))
        (format_int-Free b'|' b.difficulty (omega arith)) e4 in
    record {
      height = format_uint-injective a.height b.height height;
      timestamp = format_int-injective a.timestamp b.timestamp timestamp;
      prev_hash = prev_hash;
      merkle_root = merkle;
      difficulty = format_int-injective a.difficulty b.difficulty difficulty;
      nonce = format_uint-injective a.nonce b.nonce nonce;
    }

pub replicate-Free : (n c b : ℕ) → b ≢ c → Free c (replicate n b)
replicate-Free zero c b h = tt
replicate-Free (suc n) c b h = (h, replicate-Free n c b h)

has_prefix-append : (p s : Text) → has_prefix (p ++ s) p ≡ true
unfolding has_prefix
has_prefix-append [] s = refl
has_prefix-append (b ∷ p) s = ground (arith, has_prefix-append p s)

has_prefix-eq-append : (s p : Text) → has_prefix s p ≡ true → (rest : Text) × (s ≡ p ++ rest)
unfolding has_prefix
has_prefix-eq-append s [] h = (s, refl)
has_prefix-eq-append [] (b ∷ p) h = cc
has_prefix-eq-append (a ∷ s) (b ∷ p) h =
    let (head, tail) = &&-eq-true (a == b) (has_prefix s p) h in
    let (rest, e) = has_prefix-eq-append s p tail in (rest, cc ((==_iff a b).0 head, e))

-- At a difficulty that is not negative, the test returns, and it holds exactly when the hash
-- consists of that many zero digits and a rest.
meets_difficulty_exact :
    (hash : Text) (d : ℕ)
    → (meets_difficulty hash (pos d) ≡ some true)
      ↔ ((rest : Text) × (hash ≡ replicate d b'0' ++ rest))
unfolding meets_difficulty
meets_difficulty_exact hash d = (
  (λ h. has_prefix-eq-append hash (replicate d b'0') (ground arith)),
  (λ (rest, e). ground (
    arith,
    ap (λ (x : Text). length x) e,
    length-append (replicate d b'0') rest,
    length-replicate {A = ℕ} d b'0',
    ap (λ (x : Text). has_prefix x (replicate d b'0')) e,
    has_prefix-append (replicate d b'0') rest,
  )),
)

module _ (c : Crypto) (laws : IsCrypto c) where
  pub merkle_root-Free : (txs : List Transaction) → Free b'|' (merkle_root c txs)
  unfolding merkle_root
  merkle_root-Free [] = replicate-Free 64 b'|' b'0' (omega arith)
  merkle_root-Free (tx ∷ txs) =
      hex_encode-Free b'|' (root_of c (map (hash c) (tx ∷ txs))) (omega arith)
        (root_of-IsByte c laws (tx ∷ txs))

  pub compute_hash-Free : (b : Block) → Free b'|' (compute_hash c b)
  unfolding compute_hash
  compute_hash-Free b =
      hex_encode-Free b'|' (c.sha256 (hash_preimage b)) (omega arith)
        (laws.sha256_bytes (hash_preimage b))

  -- Two blocks with one recomputed hash have one header, or their two preimages collide.
  pub compute_hash_binding :
      (a b : Block)
      → HasDigests a
      → HasDigests b
      → compute_hash c a ≡ compute_hash c b
      → SameHeader a b ⊎ Collides c (hash_preimage a) (hash_preimage b)
  unfolding compute_hash
  compute_hash_binding a b ha hb e =
      elim (same_or_collide c (hash_preimage a) (hash_preimage b) (
        hex_encode-injective (c.sha256 (hash_preimage a)) (c.sha256 (hash_preimage b))
          (laws.sha256_bytes (hash_preimage a)) (laws.sha256_bytes (hash_preimage b)) e)) [
            | inl same ↦ inl (hash_preimage-injective a b ha hb same)
            | inr k ↦ inr k
          ]
