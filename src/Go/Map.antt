-- ===== src/Go/Map.antt =====
-- Go's `map[string]V`, as a list of entries: iteration order is unspecified in Go, and a key has
-- one entry in every map that `insert` and `erase` build.
use mathlib.Core.Path.{subst}
use toy_blockchain.Prelude.{
  ◌≡◌, refl, Option, none, some, List, [], ◌∷◌, arith, if◌then◌else◌, Text, text_eq, text_eq_iff,
  text_eq_refl, Bool-cases, inl, inr,
}

abbrev pub Map {ℓ} : Type ℓ → Type ℓ
Map V = List (Text × V)

module _ {ℓ} {V : Type ℓ} where
  -- `v, ok := m[k]`
  unfoldable pub lookup : Text → Map V → Option V
  lookup k [] = none
  lookup k ((j, v) ∷ m) = if text_eq j k then some v else lookup k m

  -- `m[k]`, the zero value where the key is missing
  unfoldable pub get : V → Text → Map V → V
  unfolding lookup
  get z k m = elim (lookup k m) [ none ↦ z | some v ↦ v ]

  -- `delete(m, k)`
  unfoldable pub erase : Text → Map V → Map V
  erase k [] = []
  erase k ((j, v) ∷ m) = let rest = erase k m in if text_eq j k then rest else (j, v) ∷ rest

  -- `m[k] = v`
  unfoldable pub insert : Text → V → Map V → Map V
  unfolding erase
  insert k v m = (k, v) ∷ erase k m

  pub lookup-erase :
      (k j : Text) (m : Map V) → lookup j (erase k m) ≡ (if text_eq k j then none else lookup j m)
  unfolding lookup erase
  lookup-erase k j [] = ground arith
  lookup-erase k j ((i, v) ∷ m) =
      ground (arith, lookup-erase k j m, text_eq_iff i k, text_eq_iff i j, text_eq_iff k j)

  pub lookup-insert :
      (k j : Text) (v : V) (m : Map V)
      → lookup j (insert k v m) ≡ (if text_eq k j then some v else lookup j m)
  unfolding lookup insert
  lookup-insert k j v m = rw (lookup-erase k j m) (ground arith)

  -- An entry that was just written and is erased leaves nothing behind.
  pub erase-insert_self :
      (k : Text) (v : V) (m : Map V) → erase k (insert k v m) ≡ erase k (erase k m)
  unfolding erase insert
  erase-insert_self k v m = rw (text_eq_refl k)

  -- No key has two entries.
  abbrev pub NoDup : Map V → Type ℓ
  NoDup [] = Unit
  NoDup ((k, v) ∷ m) = (lookup k m ≡ none) × NoDup m

  pub erase-NoDup : (k : Text) (m : Map V) → NoDup m → NoDup (erase k m)
  unfolding erase
  erase-NoDup k [] h = tt
  erase-NoDup k ((j, v) ∷ m) h = ground (arith, erase-NoDup k m h.1, lookup-erase k j m)

  pub insert-NoDup : (k : Text) (v : V) (m : Map V) → NoDup m → NoDup (insert k v m)
  unfolding insert
  insert-NoDup k v m h =
      (rw (lookup-erase k k m) (ground (arith, text_eq_iff k k)), erase-NoDup k m h)

  -- Erasing a key that is not there changes nothing.
  pub erase_absent : (k : Text) (m : Map V) → lookup k m ≡ none → erase k m ≡ m
  unfolding lookup erase
  erase_absent k [] h = refl
  erase_absent k ((j, v) ∷ m) h = ground (arith, erase_absent k m)

  -- Every value of the map has the property.
  abbrev pub AllValues {κ} : (V → Type κ) → Map V → Type κ
  AllValues P [] = Unit
  AllValues P ((k, v) ∷ m) = P v × AllValues P m

  pub erase-AllValues {κ} :
      (P : V → Type κ) (k : Text) (m : Map V) → AllValues P m → AllValues P (erase k m)
  unfolding erase
  erase-AllValues P k [] h = tt
  erase-AllValues P k ((j, v) ∷ m) h = elim (Bool-cases (text_eq j k)) [
    | inl e ↦ rw e (erase-AllValues P k m h.1)
    | inr e ↦ rw e (h.0, erase-AllValues P k m h.1)
  ]

  pub lookup-AllValues {κ} :
      (P : V → Type κ) (k : Text) (v : V) (m : Map V) → AllValues P m → lookup k m ≡ some v → P v
  unfolding lookup
  lookup-AllValues P k v [] h e = cc
  lookup-AllValues P k v ((j, w) ∷ m) h e = elim (Bool-cases (text_eq j k)) [
    | inl t ↦ let same : w ≡ v = ground arith in subst P same h.0
    | inr t ↦ lookup-AllValues P k v m h.1 (rw t at e)
  ]
