-- ===== src/Chain/History.antt =====
-- The hash of the last block fixes the whole history: internal/chain/validate.go and the rules that
-- it combines.
use mathlib.Core.Path.{subst}
use toy_blockchain.Prelude.{
  ◌+◌, ◌%◌, ◌^◌, ◌<◌, ◌≡◌, sym, ◌∙◌, ◌⊎◌, inl, inr, Option, none, some, List, [], ◌∷◌, Text, arith,
  length, last, Free, ok,
}
use toy_blockchain.Crypto.{Crypto, IsCrypto}
use toy_blockchain.Ledger.State.{State, new_state}
use toy_blockchain.Ledger.Replay.{run}
use toy_blockchain.Block.Header.{Block}
use toy_blockchain.Block.Genesis.{genesis_prev_hash}
use toy_blockchain.Block.Binding.{
  In, In-append_left, In-append_right, CollidesIn, CollidesIn-append_left,
}
use toy_blockchain.Block.Link.{replicate-Free}
use toy_blockchain.Chain.Validate.{validate}
use toy_blockchain.Chain.Valid.{IsSealed, ValidFrom, IsValidChain, validate_exact}
use toy_blockchain.Chain.Suffix.{
  AgreeAll, block_inputs, chain_inputs, sealed_hash-Free, header_binding, suffix_binding,
}

module _ (c : Crypto) where
  -- Heights count up from the first block, modulo 2 ^ 64.
  height-last :
      (p : Option Block) (a : Block) (as' : List Block) (s : State)
      → ValidFrom c p (a ∷ as') s
      → (last a as').height % 2 ^ 64 ≡ (a.height + length as') % 2 ^ 64
  height-last p a [] s v = omega arith
  height-last p a (a' ∷ as') s (la, va, ha, ra) =
      omega (arith, height-last (some a) a' as' (run a.transactions s) ra, ra.0.height)

  first-Free : (a : Block) → a.prev_hash ≡ genesis_prev_hash → Free b'|' a.prev_hash
  first-Free a e = subst (Free b'|') (sym e) (replicate-Free 64 b'|' b'0' (omega arith))

  In-last :
      (a : Block) (as' : List Block) (x : Text)
      → In x (block_inputs c (last a as'))
      → In x (chain_inputs c (a ∷ as'))
  In-last a [] x h = In-append_left x (block_inputs c a) [] h
  In-last a (a' ∷ as') x h =
      In-append_right x (block_inputs c a) (chain_inputs c (a' ∷ as')) (In-last a' as' x h)

  -- The last block of a valid chain, with what its validity says of it.
  record LastBlock (a : Block) (as' : List Block) : Type 0 where
    free : Free b'|' (last a as').prev_hash
    seal : IsSealed c (last a as')

  module _ (laws : IsCrypto c) where
    last_block :
        (p : Option Block) (a : Block) (as' : List Block) (s : State)
        → Free b'|' a.prev_hash
        → ValidFrom c p (a ∷ as') s
        → LastBlock a as'
    last_block p a [] s fa (la, va, ha, ra) = record { free = fa; seal = va }
    last_block p a (a' ∷ as') s fa (la, va, ha, ra) =
        let rest =
          last_block (some a) a' as' (run a.transactions s)
            (subst (Free b'|') (sym ra.0.prev_hash) (sealed_hash-Free c laws a va)) ra in
        record { free = rest.free; seal = rest.seal }

    history_lengths :
        (a b : Block) (as' bs : List Block)
        → IsValidChain c (a ∷ as')
        → IsValidChain c (b ∷ bs)
        → length as' < 2 ^ 64
        → length bs < 2 ^ 64
        → (last a as').hash ≡ (last b bs).hash
        → (length as' ≡ length bs)
          ⊎ CollidesIn c (chain_inputs c (a ∷ as')) (chain_inputs c (b ∷ bs))
    history_lengths a b as' bs (ga, pa, va) (gb, pb, vb) na nb e =
        let fa = first-Free a pa in
        let fb = first-Free b pb in
        elim (header_binding c laws a b va.1 vb.1 fa fb (ga ∙ sym gb)) [
          | inr k ↦ inr (CollidesIn-append_left (chain_inputs c as') (chain_inputs c bs) k)
          | inl first ↦
              let la = last_block none a as' new_state fa va in
              let lb = last_block none b bs new_state fb vb in
              elim (header_binding c laws (last a as') (last b bs) la.seal lb.seal la.free lb.free
                e) [
                  | inr k ↦ inr (record {
                    one = k.one;
                    other = k.other;
                    one_in = In-last a as' k.one k.one_in;
                    other_in = In-last b bs k.other k.other_in;
                    collide = k.collide;
                  })
                  | inl same ↦ inl (
                      omega (
                        arith,
                        first.height,
                        same.height,
                        height-last none a as' new_state va,
                        height-last none b bs new_state vb,
                      ))
                ]
        ]

    -- Let two chains of at most 2 ^ 64 blocks be accepted by Validate and let their last blocks
    -- have one hash. With cryptography that meets `IsCrypto` they agree block by block from the
    -- genesis on, in every header field and, where a block has as many transactions, in every
    -- transaction; or two of the strings that their validation hashes collide.
    pub history_binding :
        (a b : Block) (as' bs : List Block)
        → validate c (a ∷ as') ≡ ok tt
        → validate c (b ∷ bs) ≡ ok tt
        → length as' < 2 ^ 64
        → length bs < 2 ^ 64
        → (last a as').hash ≡ (last b bs).hash
        → AgreeAll (a ∷ as') (b ∷ bs)
          ⊎ CollidesIn c (chain_inputs c (a ∷ as')) (chain_inputs c (b ∷ bs))
    history_binding a b as' bs ha hb na nb e =
        let va = (validate_exact c (a ∷ as')).0 ha in
        let vb = (validate_exact c (b ∷ bs)).0 hb in
        elim (history_lengths a b as' bs va vb na nb e) [
          | inr k ↦ inr k
          | inl n ↦
              suffix_binding c laws none none a b as' bs new_state new_state n (first-Free a va.1)
                (first-Free b vb.1) va.2 vb.2 e
        ]
