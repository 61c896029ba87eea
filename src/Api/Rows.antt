-- ===== src/Api/Rows.antt =====
-- What it means that a table of patterns takes a request, and that the order of its rows does not
-- matter to that.
use mathlib.Core.Path.{subst}
use toy_blockchain.Prelude.{
  ◌≡◌, ◌⊎◌, ◌↔◌, inl, inr, refl, sym, true, none, some, List, [], ◌∷◌, Text,
}
use toy_blockchain.Api.Router.{Endpoint, Route, routes, match_path, method_allowed}

-- A row of a table, and the tables that have the rows of `routes`, in whatever order.
abbrev pub Row : Route → List Route → Type 0
Row r [] = ⊥
Row r (q ∷ rs) = (r ≡ q) ⊎ Row r rs

abbrev pub SameRows : List Route → Type 0
SameRows rs = (r : Route) → Row r rs ↔ Row r routes

module _ (method : Text) (path : List Text) where
  -- Some pattern of the table takes the path, with the value of its wildcard, and the method too.
  abbrev pub Takes : Endpoint → Text → List Route → Type 0
  Takes endpoint value [] = ⊥
  Takes endpoint value (r ∷ rs) =
      ((match_path r.pattern path ≡ some value)
        × (method_allowed r.method method ≡ true)
        × (r.endpoint ≡ endpoint))
      ⊎ Takes endpoint value rs

  -- No pattern takes the path, with whatever method.
  abbrev pub Unknown : List Route → Type 0
  Unknown [] = Unit
  Unknown (r ∷ rs) = (match_path r.pattern path ≡ none) × Unknown rs

  -- A row of the table that takes the request.
  Takes-Row :
      (rs : List Route) (e : Endpoint) (v : Text)
      → Takes e v rs
      → (r : Route) × Row r rs × Takes e v (r ∷ [])
  Takes-Row [] e v t = absurd t
  Takes-Row (r ∷ rs) e v (inl t) = (r, inl refl, inl t)
  Takes-Row (r ∷ rs) e v (inr t) = let (q, row, t') = Takes-Row rs e v t in (q, inr row, t')

  Row-Takes :
      (rs : List Route) (r : Route) (e : Endpoint) (v : Text)
      → Row r rs
      → Takes e v (r ∷ [])
      → Takes e v rs
  Row-Takes [] r e v row t = absurd row
  Row-Takes (q ∷ rs) r e v (inr row) t = inr (Row-Takes rs r e v row t)
  Row-Takes (q ∷ rs) r e v (inl same) t = elim (subst (λ p. Takes e v (p ∷ [])) same t) [
    | inl here ↦ inl here
    | inr never ↦ absurd never
  ]

  Unknown-Row :
      (rs : List Route) (r : Route) → Row r rs → Unknown rs → match_path r.pattern path ≡ none
  Unknown-Row [] r row u = absurd row
  Unknown-Row (q ∷ rs) r (inl same) (m, u) =
      subst (λ p. match_path p.pattern path ≡ none) (sym same) m
  Unknown-Row (q ∷ rs) r (inr row) (m, u) = Unknown-Row rs r row u

  rows-Unknown :
      (rs : List Route) → ((r : Route) → Row r rs → match_path r.pattern path ≡ none) → Unknown rs
  rows-Unknown [] h = tt
  rows-Unknown (r ∷ rs) h = (h r (inl refl), rows-Unknown rs (λ q row. h q (inr row)))

  pub Takes-carried :
      (rs rs' : List Route) (e : Endpoint) (v : Text)
      → ((r : Route) → Row r rs → Row r rs')
      → Takes e v rs
      → Takes e v rs'
  Takes-carried rs rs' e v carry t =
      let (r, row, here) = Takes-Row rs e v t in Row-Takes rs' r e v (carry r row) here

  pub Unknown-carried :
      (rs rs' : List Route) → ((r : Route) → Row r rs' → Row r rs) → Unknown rs → Unknown rs'
  Unknown-carried rs rs' carry u = rows-Unknown rs' (λ r row. Unknown-Row rs r (carry r row) u)
