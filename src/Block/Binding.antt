-- ===== src/Block/Binding.antt =====
-- The Merkle root as a commitment: two lists of transactions of one length with one root are equal
-- hash by hash, or two of the strings that were hashed on the way collide.
use toy_blockchain.Prelude.{
  ℕ, zero, suc, ◌≡◌, refl, ap, sym, ◌∙◌, ◌⊎◌, inl, inr, List, [], ◌∷◌, ◌++◌, map, Text, length,
  arith, All, text_eq, text_eq_iff, text_eq_complete, Bool-cases, length-map, ∷-injective,
}
use toy_blockchain.Crypto.{Crypto, IsCrypto, Collides}
use toy_blockchain.Ledger.Encoding.{append-injective}
use toy_blockchain.Block.Merkle.{next_level, climb}

abbrev pub In : Text → List Text → Type 0
In x [] = ⊥
In x (y ∷ l) = (x ≡ y) ⊎ In x l

pub In-append_left : (x : Text) (l m : List Text) → In x l → In x (l ++ m)
In-append_left x [] m h = absurd h
In-append_left x (y ∷ l) m (inl e) = inl e
In-append_left x (y ∷ l) m (inr h) = inr (In-append_left x l m h)

pub In-append_right : (x : Text) (l m : List Text) → In x m → In x (l ++ m)
In-append_right x [] m h = h
In-append_right x (y ∷ l) m h = inr (In-append_right x l m h)

-- Two strings, one from each list, that collide.
pub record CollidesIn (c : Crypto) (l m : List Text) : Type 0 where
  pub one : Text
  pub other : Text
  pub one_in : In one l
  pub other_in : In other m
  pub collide : Collides c one other

module _ {c : Crypto} where
  pub CollidesIn-append_left :
      {l m : List Text} (l' m' : List Text) → CollidesIn c l m → CollidesIn c (l ++ l') (m ++ m')
  CollidesIn-append_left {l} {m} l' m' k = record {
    one = k.one;
    other = k.other;
    one_in = In-append_left k.one l l' k.one_in;
    other_in = In-append_left k.other m m' k.other_in;
    collide = k.collide;
  }

  pub CollidesIn-append_right :
      {l m : List Text} (l' m' : List Text) → CollidesIn c l m → CollidesIn c (l' ++ l) (m' ++ m)
  CollidesIn-append_right {l} {m} l' m' k = record {
    one = k.one;
    other = k.other;
    one_in = In-append_right k.one l' l k.one_in;
    other_in = In-append_right k.other m' m k.other_in;
    collide = k.collide;
  }

module _ (c : Crypto) where
  -- Two strings with one digest are equal, or collide.
  pub same_or_collide : (x y : Text) → c.sha256 x ≡ c.sha256 y → (x ≡ y) ⊎ Collides c x y
  same_or_collide x y e = elim (Bool-cases (text_eq x y)) [
    | inl same ↦ inl ((text_eq_iff x y).0 same)
    | inr apart ↦ inr (record { differ = λ p. cc (text_eq_complete x y p, apart); agree = e })
  ]

  pub all_same_or_collide :
      (l m : List Text)
      → length l ≡ length m
      → map c.sha256 l ≡ map c.sha256 m
      → (l ≡ m) ⊎ CollidesIn c l m
  all_same_or_collide [] [] h e = inl refl
  all_same_or_collide [] (y ∷ m) h e = absurd (omega (arith, h))
  all_same_or_collide (x ∷ l) [] h e = absurd (omega (arith, h))
  all_same_or_collide (x ∷ l) (y ∷ m) h e =
      let (head, tail) = ∷-injective e in
      elim (same_or_collide x y head) [
        | inr k ↦
            inr (record { one = x; other = y; one_in = inl refl; other_in = inl refl; collide = k })
        | inl same ↦ elim (all_same_or_collide l m (omega (arith, h)) tail) [
          | inl rest ↦ inl (cc (same, rest))
          | inr k ↦ inr (CollidesIn-append_right (x ∷ []) (y ∷ []) k)
        ]
      ]

  -- The strings that one round hashes.
  pub pairs : List Text → List Text
  pairs [] = []
  pairs (a ∷ []) = (a ++ a) ∷ []
  pairs (a ∷ b ∷ l) = (a ++ b) ∷ pairs l

  next_level-eq-map : (l : List Text) → next_level c l ≡ map c.sha256 (pairs l)
  unfolding next_level pairs
  next_level-eq-map [] = refl
  next_level-eq-map (a ∷ []) = refl
  next_level-eq-map (a ∷ b ∷ l) = ap (λ t. c.sha256 (a ++ b) ∷ t) (next_level-eq-map l)

  -- A digest is as long as any other, so the pairs say which nodes they are made of.
  abbrev pub IsDigest : Text → Type 0
  IsDigest x = length x ≡ 32

  pairs-injective :
      (l m : List Text)
      → All IsDigest l
      → All IsDigest m
      → length l ≡ length m
      → pairs l ≡ pairs m
      → l ≡ m
  unfolding pairs
  pairs-injective [] [] hl hm n e = refl
  pairs-injective [] (y ∷ m) hl hm n e = absurd (omega (arith, n))
  pairs-injective (x ∷ l) [] hl hm n e = absurd (omega (arith, n))
  pairs-injective (x ∷ []) (y ∷ []) hl hm n e =
      let t = append-injective x y x y (hl.0 ∙ sym hm.0) (∷-injective e).0 in cc (t.0)
  pairs-injective (x ∷ []) (y ∷ z ∷ m) hl hm n e = absurd (omega (arith, n))
  pairs-injective (x ∷ w ∷ l) (y ∷ []) hl hm n e = absurd (omega (arith, n))
  pairs-injective (x ∷ w ∷ l) (y ∷ z ∷ m) hl hm n e =
      let (head, tail) = ∷-injective e in
      let t = append-injective x y w z (hl.0 ∙ sym hm.0) head in
      cc (t.0, t.1, pairs-injective l m hl.1.1 hm.1.1 (omega (arith, n)) tail)

  length-pairs : (l : List Text) → length (pairs l) ≡ length (next_level c l)
  length-pairs l =
      sym (ap (λ t. length {A = Text} t) (next_level-eq-map l) ∙ length-map (pairs l) c.sha256)

  -- The strings that the whole tree hashes, with as many rounds as `climb` makes.
  pub tree_inputs : ℕ → List Text → List Text
  tree_inputs (suc rounds) (a ∷ b ∷ level) =
      pairs (a ∷ b ∷ level) ++ tree_inputs rounds (next_level c (a ∷ b ∷ level))
  tree_inputs rounds level = []

  pub next_level-IsDigest : IsCrypto c → (l : List Text) → All IsDigest (next_level c l)
  unfolding next_level
  next_level-IsDigest laws [] = tt
  next_level-IsDigest laws (a ∷ []) = (laws.sha256_length (a ++ a), tt)
  next_level-IsDigest laws (a ∷ b ∷ l) = (laws.sha256_length (a ++ b), next_level-IsDigest laws l)

  length-next_level_same :
      (l m : List Text) → length l ≡ length m → length (next_level c l) ≡ length (next_level c m)
  unfolding next_level
  length-next_level_same [] [] n = refl
  length-next_level_same [] (y ∷ m) n = absurd (omega (arith, n))
  length-next_level_same (x ∷ l) [] n = absurd (omega (arith, n))
  length-next_level_same (x ∷ []) (y ∷ []) n = refl
  length-next_level_same (x ∷ []) (y ∷ z ∷ m) n = absurd (omega (arith, n))
  length-next_level_same (x ∷ w ∷ l) (y ∷ []) n = absurd (omega (arith, n))
  length-next_level_same (x ∷ w ∷ l) (y ∷ z ∷ m) n =
      ap suc (length-next_level_same l m (omega (arith, n)))

  -- One round: two levels of one length that give one level are equal, or a pair collides.
  level_binding :
      (l m : List Text)
      → All IsDigest l
      → All IsDigest m
      → length l ≡ length m
      → next_level c l ≡ next_level c m
      → (l ≡ m) ⊎ CollidesIn c (pairs l) (pairs m)
  level_binding l m hl hm n e =
      elim (all_same_or_collide (pairs l) (pairs m)
        (length-pairs l ∙ length-next_level_same l m n ∙ sym (length-pairs m))
        (sym (next_level-eq-map l) ∙ e ∙ next_level-eq-map m)) [
          | inl same ↦ inl (pairs-injective l m hl hm n same)
          | inr k ↦ inr k
        ]

  empty_same : (m : List Text) → 0 ≡ length m → [] ≡ m
  empty_same [] n = refl
  empty_same (y ∷ m) n = absurd (omega (arith, n))

  module _ (laws : IsCrypto c) where
    pub climb_binding :
        (f : ℕ) (l m : List Text)
        → All IsDigest l
        → All IsDigest m
        → length l ≡ length m
        → climb c f l ≡ climb c f m
        → (l ≡ m) ⊎ CollidesIn c (tree_inputs f l) (tree_inputs f m)
    unfolding climb tree_inputs
    climb_binding zero l m hl hm n e = inl e
    climb_binding (suc f) [] m hl hm n e = inl (empty_same m n)
    climb_binding (suc f) (x ∷ []) [] hl hm n e = absurd (omega (arith, n))
    climb_binding (suc f) (x ∷ []) (y ∷ []) hl hm n e = inl e
    climb_binding (suc f) (x ∷ []) (y ∷ z ∷ m) hl hm n e = absurd (omega (arith, n))
    climb_binding (suc f) (x ∷ w ∷ l) [] hl hm n e = absurd (omega (arith, n))
    climb_binding (suc f) (x ∷ w ∷ l) (y ∷ []) hl hm n e = absurd (omega (arith, n))
    climb_binding (suc f) (x ∷ w ∷ l) (y ∷ z ∷ m) hl hm n e =
        let one = x ∷ w ∷ l in
        let other = y ∷ z ∷ m in
        elim (climb_binding f (next_level c one) (next_level c other) (next_level-IsDigest laws one)
          (next_level-IsDigest laws other) (length-next_level_same one other n) e) [
            | inr k ↦ inr (CollidesIn-append_right (pairs one) (pairs other) k)
            | inl same ↦ elim (level_binding one other hl hm n same) [
              | inl equal ↦ inl equal
              | inr k ↦ inr (
                  CollidesIn-append_left (tree_inputs f (next_level c one))
                    (tree_inputs f (next_level c other)) k)
            ]
          ]
