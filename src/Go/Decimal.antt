-- ===== src/Go/Decimal.antt =====
-- strconv.FormatUint, strconv.FormatInt and strconv.Itoa in base 10.
use toy_blockchain.Prelude.{
  ℕ, zero, suc, ◌+◌, ◌-◌, ◌*◌, ◌/◌, ◌%◌, ◌≤◌, ◌<◌, ◌≡◌, refl, ap, sym, ◌∙◌, ◌≢◌, [], ◌∷◌, ◌++◌,
  arith, ltb, if◌then◌else◌, Bool-cases, inl, inr, Text, All, All-append, All-map, Free, ℤ, pos,
  negsuc, ∷-injective,
}

abbrev digit : ℕ → ℕ
digit n = n % 10 + 48

-- The digits of `n`, the last one by `n % 10`; the first argument is fuel, more than `n`.
digits : ℕ → ℕ → Text
digits zero n = []
digits (suc f) n =
    let rest = digits f (n / 10) in if ltb n 10 then digit n ∷ [] else rest ++ digit n ∷ []

unfoldable pub format_uint : ℕ → Text
unfolding digits
format_uint n = digits (suc n) n

unfoldable pub format_int : ℤ → Text
unfolding format_uint
format_int (pos n) = format_uint n
format_int (negsuc n) = b'-' ∷ format_uint (suc n)

-- The number that a text of digits stands for, after the digits read so far.
pub value : ℕ → Text → ℕ
value acc [] = acc
value acc (c ∷ t) = value (acc * 10 + (c - 48)) t

value-append : (acc : ℕ) (x y : Text) → value acc (x ++ y) ≡ value (value acc x) y
unfolding value
value-append acc [] y = refl
value-append acc (c ∷ x) y = value-append (acc * 10 + (c - 48)) x y

value-digits : (f n : ℕ) → n < f → value 0 (digits f n) ≡ n
unfolding value digits
value-digits zero n h = elim h [ ]
value-digits (suc f) n h = elim (Bool-cases (ltb n 10)) [
  | inl small ↦ rw small (ground arith)
  | inr large ↦ rw large (
      value-append 0 (digits f (n / 10)) (digit n ∷ [])
      ∙ (rw (value-digits f (n / 10) (ground arith)) (ground arith)))
]

pub value-format_uint : (n : ℕ) → value 0 (format_uint n) ≡ n
unfolding format_uint
value-format_uint n = value-digits (suc n) n (omega arith)

-- Different numbers have different decimal texts.
pub format_uint-injective : (m n : ℕ) → format_uint m ≡ format_uint n → m ≡ n
format_uint-injective m n e =
    sym (value-format_uint m) ∙ ap (λ t. value 0 t) e ∙ value-format_uint n

-- A decimal digit.
abbrev pub IsDigit : ℕ → Type 0
IsDigit c = (48 ≤ c) × (c ≤ 57)

digits-IsDigit : (f n : ℕ) → All IsDigit (digits f n)
unfolding digits
digits-IsDigit zero n = tt
digits-IsDigit (suc f) n = elim (Bool-cases (ltb n 10)) [
  | inl small ↦ rw small ((omega arith, omega arith), tt)
  | inr large ↦ rw large (
      All-append IsDigit (digits f (n / 10)) (digit n ∷ []) (digits-IsDigit f (n / 10))
        ((omega arith, omega arith), tt))
]

pub format_uint-IsDigit : (n : ℕ) → All IsDigit (format_uint n)
unfolding format_uint
format_uint-IsDigit n = digits-IsDigit (suc n) n

-- No separator of the encodings is a digit.
pub format_uint-Free : (c n : ℕ) → 57 < c → Free c (format_uint n)
format_uint-Free c n h =
    All-map IsDigit (λ b. b ≢ c) (λ b d. omega arith) (format_uint n) (format_uint-IsDigit n)

pub format_int-Free : (c : ℕ) (z : ℤ) → 57 < c → Free c (format_int z)
unfolding format_int
format_int-Free c (pos n) h = format_uint-Free c n h
format_int-Free c (negsuc n) h = (omega arith, format_uint-Free c (suc n) h)

minus_ne : (m n : ℕ) (t : Text) → format_uint m ≡ b'-' ∷ t → m ≡ n
minus_ne m n t e = absurd (omega (arith, (go (format_uint m) t (format_uint-IsDigit m) e)))
  where
    go : (x t : Text) → All IsDigit x → x ≡ b'-' ∷ t → 1 ≤ 0
    go [] t d e = cc
    go (c ∷ x) t d e = omega (arith, d.0, (∷-injective e).0)

pub format_int-injective : (a b : ℤ) → format_int a ≡ format_int b → a ≡ b
unfolding format_int
format_int-injective (pos m) (pos n) e = ap pos (format_uint-injective m n e)
format_int-injective (pos m) (negsuc n) e =
    absurd (omega (arith, minus_ne m (suc m) (format_uint (suc n)) e))
format_int-injective (negsuc m) (pos n) e =
    absurd (omega (arith, minus_ne n (suc n) (format_uint (suc m)) (sym e)))
format_int-injective (negsuc m) (negsuc n) e =
    ap negsuc (omega (arith, format_uint-injective (suc m) (suc n) (∷-injective e).1))
