-- ===== src/Tests/Json.antt =====
-- A small stand-in for encoding/json that reads back every file, to run the model with.
use toy_blockchain.Prelude.{
  ℕ, zero, suc, ◌≡◌, refl, ap, ◌∙◌, List, [], ◌∷◌, ◌++◌, append_assoc, Text, length, ℤ, pos, negsuc,
  Option, none, some,
}
use toy_blockchain.Ledger.Transaction.{Transaction}
use toy_blockchain.Block.Header.{Block, has_prefix}
use toy_blockchain.Go.Map.{Map}
use toy_blockchain.Wallet.Saving.{key_contents}
use toy_blockchain.Store.{Json, File, Fits, version}

pub record Codec (A : Type 0) : Type 0 where
  pub put : A → Text
  pub get : Text → A × Text
  pub back : (x : A) (rest : Text) → get (put x ++ rest) ≡ (x, rest)

abbrev put_nat : ℕ → Text
put_nat n = n ∷ []

abbrev get_nat : Text → ℕ × Text
get_nat [] = (0, [])
get_nat (n ∷ rest) = (n, rest)

abbrev nat : Codec ℕ
nat = record { put = put_nat; get = get_nat; back = λ n rest. refl }

abbrev put_int : ℤ → Text
put_int (pos n) = 0 ∷ n ∷ []
put_int (negsuc n) = 1 ∷ n ∷ []

abbrev get_int : Text → ℤ × Text
get_int [] = (pos 0, [])
get_int (s ∷ []) = (pos 0, [])
get_int (zero ∷ n ∷ rest) = (pos n, rest)
get_int (suc s ∷ n ∷ rest) = (negsuc n, rest)

pub int_back : (x : ℤ) (rest : Text) → get_int (put_int x ++ rest) ≡ (x, rest)
int_back (pos n) rest = refl
int_back (negsuc n) rest = refl

abbrev int : Codec ℤ
int = record { put = put_int; get = get_int; back = int_back }

module _ {A : Type 0} (a : Codec A) where
  abbrev put_all : List A → Text
  put_all [] = []
  put_all (x ∷ xs) = a.put x ++ put_all xs

  abbrev get_all : ℕ → Text → List A × Text
  get_all zero rest = ([], rest)
  get_all (suc n) rest = let r = a.get rest in let rs = get_all n r.1 in (r.0 ∷ rs.0, rs.1)

  pub all_back : (xs : List A) (rest : Text) → get_all (length xs) (put_all xs ++ rest) ≡ (xs, rest)
  all_back [] rest = refl
  all_back (x ∷ xs) rest =
      ap (get_all (suc (length xs))) (append_assoc (a.put x) (put_all xs) rest)
      ∙ rw (a.back x (put_all xs ++ rest), all_back xs rest) refl

  abbrev get_list : Text → List A × Text
  get_list [] = ([], [])
  get_list (n ∷ rest) = get_all n rest

  abbrev list : Codec (List A)
  list = record { put = λ xs. length xs ∷ put_all xs; get = get_list; back = all_back }

  module _ {B : Type 0} (b : Codec B) where
    abbrev put_both : A × B → Text
    put_both (x, y) = a.put x ++ b.put y

    abbrev get_both : Text → (A × B) × Text
    get_both s = let r = a.get s in let q = b.get r.1 in ((r.0, q.0), q.1)

    pub both_back : (x : A × B) (rest : Text) → get_both (put_both x ++ rest) ≡ (x, rest)
    both_back (x, y) rest =
        ap get_both (append_assoc (a.put x) (b.put y) rest)
        ∙ rw (a.back x (b.put y ++ rest), b.back y rest) refl

    abbrev both : Codec (A × B)
    both = record { put = put_both; get = get_both; back = both_back }

  -- A type with the same contents.
  abbrev like : {B : Type 0} (to : A → B) (of : B → A) → ((y : B) → to (of y) ≡ y) → Codec B
  like to of same = record {
    put = λ y. a.put (of y);
    get = λ s. (to (a.get s).0, (a.get s).1);
    back = λ y rest. ap (λ r. (to r.0, r.1)) (a.back (of y) rest) ∙ ap (λ z. (z, rest)) (same y);
  }

abbrev text : Codec Text
text = list nat

abbrev transaction : Codec Transaction
transaction =
    like (both text (both text (both int (both int (both text text)))))
      (λ x. record {
        from = x.0;
        to = x.1.0;
        amount = x.1.1.0;
        timestamp = x.1.1.1.0;
        pub_key = x.1.1.1.1.0;
        signature = x.1.1.1.1.1;
      })
      (λ tx. (tx.from, (tx.to, (tx.amount, (tx.timestamp, (tx.pub_key, tx.signature))))))
      (λ tx. refl)

abbrev block : Codec Block
block =
    like
      (both nat
        (both int (both (list transaction) (both text (both text (both int (both nat text)))))))
      (λ x. record {
        height = x.0;
        timestamp = x.1.0;
        transactions = x.1.1.0;
        merkle_root = x.1.1.1.0;
        prev_hash = x.1.1.1.1.0;
        difficulty = x.1.1.1.1.1.0;
        nonce = x.1.1.1.1.1.1.0;
        hash = x.1.1.1.1.1.1.1;
      })
      (λ b. (
        b.height,
        (
          b.timestamp,
          (b.transactions, (b.merkle_root, (b.prev_hash, (b.difficulty, (b.nonce, b.hash))))),
        ),
      ))
      (λ b. refl)

abbrev file : Codec File
file =
    like (both int (both (list block) (list transaction)))
      (λ x. record { version = x.0; blocks = x.1.0; pending = x.1.1 })
      (λ f. (f.version, (f.blocks, f.pending))) (λ f. refl)

abbrev get_file : Text → Option File
get_file [] = none
get_file (brace ∷ rest) = some (file.get rest).0

abbrev pub toy_json : Json
toy_json = record {
  encode = λ f. b'{' ∷ file.put f;
  decode = get_file;
  encode_keys = (list (both text text)).put;
  decode_keys = λ raw. some ((list (both text text)).get raw).0;
}

pub toy_json-Fits :
    (blocks : List Block) (pending : List Transaction) → Fits toy_json blocks pending
unfolding has_prefix
toy_json-Fits blocks pending =
    let f : File = record { version = version; blocks = blocks; pending = pending } in
    record { decoded = ap (λ r. some r.0) (file.back f (b'\n' ∷ [])); no_mark = refl }

pub toy_json-keys :
    (keys : Map Text) → toy_json.decode_keys (key_contents toy_json keys) ≡ some keys
toy_json-keys keys = ap (λ r. some r.0) ((list (both text text)).back keys (b'\n' ∷ []))
