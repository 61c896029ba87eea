-- ===== src/Tests/Toy.antt =====
-- A small stand-in for SHA-256 and ed25519 that meets every documented law, to run the model with.
use toy_blockchain.Prelude.{
  ℕ, zero, suc, ◌+◌, ◌*◌, ◌%◌, ◌≡◌, refl, [], ◌∷◌, ◌++◌, map, Text, text_eq, text_eq_refl, length,
  take, replicate, length-append, length-take, length-replicate, All, All-append, arith,
}
use toy_blockchain.Go.Hex.{IsByte}
use toy_blockchain.Crypto.{Crypto, IsCrypto}

abbrev pub checksum : ℕ → Text → ℕ
checksum acc [] = acc
checksum acc (b ∷ x) = checksum (acc + b) x

abbrev pub digest : Text → Text
digest x = replicate 32 ((checksum 0 x * 37) % 256)

abbrev pub low_byte : ℕ → ℕ
low_byte b = b % 256

abbrev pub first_half : Text → Text
first_half k = map low_byte (take 32 (k ++ replicate 32 0))

abbrev pub toy : Crypto
toy = record {
  sha256 = digest;
  ed25519_public = first_half;
  ed25519_sign = λ k m. first_half k ++ digest m;
  ed25519_verify = λ p m s. text_eq s (p ++ digest m);
}

length-map-low_byte : (x : Text) → length (map low_byte x) ≡ length x
length-map-low_byte [] = refl
length-map-low_byte (b ∷ x) = omega (arith, length-map-low_byte x)

map-low_byte-IsByte : (x : Text) → All IsByte (map low_byte x)
map-low_byte-IsByte [] = tt
map-low_byte-IsByte (b ∷ x) = (omega arith, map-low_byte-IsByte x)

length-first_half : (k : Text) → length (first_half k) ≡ 32
length-first_half k = omega (
  arith,
  length-map-low_byte (take 32 (k ++ replicate 32 0)),
  length-take 32 (k ++ replicate 32 0),
  length-append k (replicate 32 0),
  length-replicate {A = ℕ} 32 0,
)

pub replicate-IsByte : (n b : ℕ) → IsByte b → All IsByte (replicate n b)
replicate-IsByte zero b h = tt
replicate-IsByte (suc n) b h = (h, replicate-IsByte n b h)

pub toy-IsCrypto : IsCrypto toy
toy-IsCrypto = record {
  sha256_length = λ x. refl;
  sha256_bytes = λ x. replicate-IsByte 32 ((checksum 0 x * 37) % 256) (omega arith);
  public_length = λ k h. length-first_half k;
  public_bytes = λ k. map-low_byte-IsByte (take 32 (k ++ replicate 32 0));
  sign_length = λ k m. omega (arith, length-append (first_half k) (digest m), length-first_half k);
  sign_bytes = λ k m.
      All-append IsByte (first_half k) (digest m)
        (map-low_byte-IsByte (take 32 (k ++ replicate 32 0)))
        (replicate-IsByte 32 ((checksum 0 m * 37) % 256) (omega arith));
  verify_sign = λ k m h. text_eq_refl (first_half k ++ digest m);
}
