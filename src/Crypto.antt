-- ===== src/Crypto.antt =====
-- The cryptography that the program calls and does not implement: crypto/sha256 and
-- crypto/ed25519, as a record of functions on byte strings, and what their documentation promises.
use toy_blockchain.Prelude.{◌≡◌, ◌≢◌, Bool, true, Text, length, All}
use toy_blockchain.Go.Hex.{IsByte}

pub record Crypto : Type 0 where
  -- sha256.Sum256
  pub sha256 : Text → Text
  -- PrivateKey.Public
  pub ed25519_public : Text → Text
  -- ed25519.Sign(private, message)
  pub ed25519_sign : Text → Text → Text
  -- ed25519.Verify(public, message, signature)
  pub ed25519_verify : Text → Text → Text → Bool

-- The documented sizes, and that a signature verifies under the key that made it.
pub record IsCrypto (c : Crypto) : Type 0 where
  pub sha256_length : (x : Text) → length (c.sha256 x) ≡ 32
  pub sha256_bytes : (x : Text) → All IsByte (c.sha256 x)
  pub public_length : (k : Text) → length k ≡ 64 → length (c.ed25519_public k) ≡ 32
  pub public_bytes : (k : Text) → All IsByte (c.ed25519_public k)
  pub sign_length : (k m : Text) → length (c.ed25519_sign k m) ≡ 64
  pub sign_bytes : (k m : Text) → All IsByte (c.ed25519_sign k m)
  pub verify_sign :
      (k m : Text)
      → length k ≡ 64
      → c.ed25519_verify (c.ed25519_public k) m (c.ed25519_sign k m) ≡ true

-- Two different byte strings with one digest. No such pair is known for SHA-256, and finding one
-- is what a theorem asks of whoever would make two histories look alike.
pub record Collides (c : Crypto) (x y : Text) : Type 0 where
  pub differ : x ≢ y
  pub agree : c.sha256 x ≡ c.sha256 y
