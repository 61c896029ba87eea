-- ===== src/Go/Hex.antt =====
-- hex.EncodeToString and hex.DecodeString.
use toy_blockchain.Prelude.{
  ℕ, ◌+◌, ◌-◌, ◌*◌, ◌/◌, ◌%◌, ◌<◌, ◌≡◌, refl, ◌≢◌, [], ◌∷◌, ◌&&◌, Option, none, some, arith, ltb,
  leb, if◌then◌else◌, Text, All, Free, length,
}

unfoldable pub hex_digit : ℕ → ℕ
hex_digit d = if ltb d 10 then d + b'0' else d - 10 + b'a'

-- Two lowercase digits for each byte.
unfoldable pub hex_encode : Text → Text
unfolding hex_digit
hex_encode [] = []
hex_encode (b ∷ x) = hex_digit (b / 16) ∷ hex_digit (b % 16) ∷ hex_encode x

-- Both cases are read.
unfoldable pub from_hex_char : ℕ → Option ℕ
from_hex_char c =
    if leb b'0' c && leb c b'9'
    then some (c - b'0')
    else if leb b'a' c && leb c b'f'
    then some (c - b'a' + 10)
    else if leb b'A' c && leb c b'F'
    then some (c - b'A' + 10)
    else none

abbrev pub join_digits : Option ℕ → Option ℕ → Option Text → Option Text
join_digits (some a) (some b) (some x) = some ((a * 16 + b) ∷ x)
join_digits _ _ _ = none

-- `none` is the error: a byte that is no hex digit, or an odd length.
unfoldable pub hex_decode : Text → Option Text
unfolding from_hex_char
hex_decode [] = some []
hex_decode (c ∷ []) = none
hex_decode (c ∷ d ∷ t) = join_digits (from_hex_char c) (from_hex_char d) (hex_decode t)

abbrev pub IsByte : ℕ → Type 0
IsByte b = b < 256

from_hex_char-hex_digit : (d : ℕ) → d < 16 → from_hex_char (hex_digit d) ≡ some d
unfolding from_hex_char hex_digit
from_hex_char-hex_digit d h = ground arith

-- Decoding gives back what was encoded.
pub hex_decode-hex_encode : (x : Text) → All IsByte x → hex_decode (hex_encode x) ≡ some x
unfolding hex_decode hex_encode
hex_decode-hex_encode [] h = refl
hex_decode-hex_encode (b ∷ x) h =
    rw
      (
        from_hex_char-hex_digit (b / 16) (omega (arith, h.0)),
        from_hex_char-hex_digit (b % 16) (omega arith),
        hex_decode-hex_encode x h.1,
      )
      (ground arith)

pub hex_encode-injective :
    (x y : Text) → All IsByte x → All IsByte y → hex_encode x ≡ hex_encode y → x ≡ y
hex_encode-injective x y hx hy e = cc (hex_decode-hex_encode x hx, hex_decode-hex_encode y hy, e)

pub length-hex_encode : (x : Text) → length (hex_encode x) ≡ 2 * length x
unfolding hex_encode
length-hex_encode [] = refl
length-hex_encode (b ∷ x) = omega (arith, length-hex_encode x)

hex_digit-ne : (c d : ℕ) → b'f' < c → d < 16 → hex_digit d ≢ c
unfolding hex_digit
hex_digit-ne c d h l = ground arith

-- No byte of an encoding is beyond `f`, so none is the separator `|`.
pub hex_encode-Free : (c : ℕ) (x : Text) → b'f' < c → All IsByte x → Free c (hex_encode x)
unfolding hex_encode
hex_encode-Free c [] h hx = tt
hex_encode-Free c (b ∷ x) h hx = (
  hex_digit-ne c (b / 16) h (omega (arith, hx.0)),
  (hex_digit-ne c (b % 16) h (omega arith), hex_encode-Free c x h hx.1),
)

from_hex_char-Free : (c d a : ℕ) → b'f' < c → from_hex_char d ≡ some a → d ≢ c
unfolding from_hex_char
from_hex_char-Free c d a h e = ground arith

join_digits-eq-some :
    (a b : Option ℕ) (t : Option Text) (x : Text)
    → join_digits a b t ≡ some x
    → (m : ℕ) × (n : ℕ) × (y : Text) × (a ≡ some m) × (b ≡ some n) × (t ≡ some y)
join_digits-eq-some (some m) (some n) (some y) x e = (m, n, y, refl, refl, refl)
join_digits-eq-some _ _ _ x e = cc

-- A text that decodes has no byte beyond `f`.
pub hex_decode-Free : (c : ℕ) (t x : Text) → b'f' < c → hex_decode t ≡ some x → Free c t
unfolding hex_decode
hex_decode-Free c [] x h e = tt
hex_decode-Free c (d ∷ []) x h e = cc
hex_decode-Free c (a ∷ b ∷ t) x h e =
    let (m, n, y, em, en, ey) =
      join_digits-eq-some (from_hex_char a) (from_hex_char b) (hex_decode t) x e in
    (from_hex_char-Free c a m h em, (from_hex_char-Free c b n h en, hex_decode-Free c t y h ey))
