-- ===== src/Prelude/Strings.antt =====
-- Go strings as lists of bytes, with their equality.
use Prim.Native.Nat.{ℕ}
use Prim.Native.Char.{code}
use Prim.Native.String.{String}
use mathlib.Core.Path.{◌≡◌, refl, ap, ◌∙◌, sym}
use mathlib.Core.Logic.{◌≢◌, ◌↔◌}
use mathlib.Core.Bool.{Bool, true, false, ◌&&◌}
use mathlib.Core.List.{List, [], ◌∷◌, ◌++◌}
use native.Mathlib.Omega.{arith}
use toy_blockchain.Prelude.Tests.{◌==◌, ==_iff, &&-eq-true}
use toy_blockchain.Prelude.Lists.{All, ∷-injective}

abbrev pub Text : Type 0
Text = List ℕ

-- The bytes of an ASCII literal.
abbrev pub codes : String → Text
codes String.[] = []
codes (String.◌∷◌ c s) = code c ∷ codes s

-- `==` on strings.
unfoldable pub text_eq : Text → Text → Bool
text_eq [] [] = true
text_eq [] (b ∷ y) = false
text_eq (a ∷ x) [] = false
text_eq (a ∷ x) (b ∷ y) = a == b && text_eq x y

pub text_eq_refl : (x : Text) → text_eq x x ≡ true
unfolding text_eq
text_eq_refl [] = refl
text_eq_refl (a ∷ x) = ground (arith, text_eq_refl x)

pub text_eq_sound : (x y : Text) → text_eq x y ≡ true → x ≡ y
unfolding text_eq
text_eq_sound [] [] h = refl
text_eq_sound [] (b ∷ y) h = cc
text_eq_sound (a ∷ x) [] h = cc
text_eq_sound (a ∷ x) (b ∷ y) h =
    let p = &&-eq-true (a == b) (text_eq x y) h in cc ((==_iff a b).0 p.0, text_eq_sound x y p.1)

pub text_eq_complete : (x y : Text) → x ≡ y → text_eq x y ≡ true
text_eq_complete x y e = ap (λ t. text_eq x t) (sym e) ∙ text_eq_refl x

pub text_eq_iff : (x y : Text) → (text_eq x y ≡ true) ↔ (x ≡ y)
text_eq_iff x y = (text_eq_sound x y, text_eq_complete x y)

-- No byte of the text is `c`.
abbrev pub Free : ℕ → Text → Type 0
Free c x = All (λ b. b ≢ c) x

-- Two texts that end at the first separator: the parts before and after it agree.
pub split_at_separator :
    (c : ℕ) (x y r s : Text) → Free c x → Free c y → x ++ c ∷ r ≡ y ++ c ∷ s → (x ≡ y) × (r ≡ s)
split_at_separator c [] [] r s fx fy e = (refl, (∷-injective e).1)
split_at_separator c [] (b ∷ y) r s fx fy e = absurd (fy.0 (sym (∷-injective e).0))
split_at_separator c (a ∷ x) [] r s fx fy e = absurd (fx.0 (∷-injective e).0)
split_at_separator c (a ∷ x) (b ∷ y) r s fx fy e =
    let t = ∷-injective e in
    let ih = split_at_separator c x y r s fx.1 fy.1 t.1 in (cc (t.0, ih.0), ih.1)
