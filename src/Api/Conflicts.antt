-- ===== src/Api/Conflicts.antt =====
-- The patterns of internal/api/server.go take no request twice, as net/http demands of a table.
use mathlib.Core.Path.{subst}
use toy_blockchain.Prelude.{
  ◌≡◌, inl, inr, refl, sym, ◌∙◌, Bool, true, false, not, ◌||◌, ◌&&◌, some, List, [], ◌∷◌, Text,
  codes, text_eq, text_eq_iff, arith, Option-cases,
}
use toy_blockchain.Api.Router.{Segment, lit, wildcard, Route, routes, match_path, method_allowed}

-- No path has both shapes.
unfoldable pub disjoint : List Segment → List Segment → Bool
disjoint [] [] = false
disjoint [] (seg ∷ q) = true
disjoint (seg ∷ p) [] = true
disjoint (lit a ∷ p) (lit b ∷ q) = not (text_eq a b) || disjoint p q
disjoint (lit a ∷ p) (wildcard ∷ q) = disjoint p q
disjoint (wildcard ∷ p) (seg ∷ q) = disjoint p q

-- A pattern takes a path where it begins with its literal, or with a part that is not empty.
match_lit :
    (text part : Text) (segs : List Segment) (parts : List Text) (v : Text)
    → match_path (lit text ∷ segs) (part ∷ parts) ≡ some v
    → (text_eq text part ≡ true) × (match_path segs parts ≡ some v)
unfolding match_path
match_lit text part segs parts v h = ground arith

match_wildcard :
    (part : Text) (segs : List Segment) (parts : List Text) (v : Text)
    → match_path (wildcard ∷ segs) (part ∷ parts) ≡ some v
    → (w : Text) × (match_path segs parts ≡ some w)
unfolding match_path
match_wildcard part segs parts v h = elim (Option-cases (match_path segs parts)) [
  | inl e ↦ absurd (ground (arith, h, e))
  | inr (w, e) ↦ (w, e)
]

pub disjoint_sound :
    (p q : List Segment) (path : List Text) (v w : Text)
    → disjoint p q ≡ true
    → match_path p path ≡ some v
    → match_path q path ≡ some w
    → ⊥
unfolding disjoint match_path
disjoint_sound [] [] path v w h m n = cc
disjoint_sound [] (seg ∷ q) [] v w h m n = cc
disjoint_sound [] (seg ∷ q) (part ∷ parts) v w h m n = cc
disjoint_sound (seg ∷ p) [] [] v w h m n = cc
disjoint_sound (seg ∷ p) [] (part ∷ parts) v w h m n = cc
disjoint_sound (seg ∷ p) (seg' ∷ q) [] v w h m n = cc
disjoint_sound (lit a ∷ p) (lit b ∷ q) (part ∷ parts) v w h m n =
    let (at, rest) = match_lit a part p parts v m in
    let (bt, rest') = match_lit b part q parts w n in
    let same : a ≡ b = (text_eq_iff a part).0 at ∙ sym ((text_eq_iff b part).0 bt) in
    disjoint_sound p q parts v w (ground (arith, h, (text_eq_iff a b).1 same)) rest rest'
disjoint_sound (lit a ∷ p) (wildcard ∷ q) (part ∷ parts) v w h m n =
    let (w', rest) = match_wildcard part q parts w n in
    disjoint_sound p q parts v w' h (match_lit a part p parts v m).1 rest
disjoint_sound (wildcard ∷ p) (lit b ∷ q) (part ∷ parts) v w h m n =
    let (v', rest) = match_wildcard part p parts v m in
    disjoint_sound p q parts v' w h rest (match_lit b part q parts w n).1
disjoint_sound (wildcard ∷ p) (wildcard ∷ q) (part ∷ parts) v w h m n =
    let (v', rest) = match_wildcard part p parts v m in
    let (w', rest') = match_wildcard part q parts w n in disjoint_sound p q parts v' w' h rest rest'

-- The two methods of the table.
unfoldable pub get_and_post : Text → Text → Bool
get_and_post a b = text_eq a (codes "GET") && text_eq b (codes "POST")

pub get_and_post_sound :
    (a b method : Text)
    → get_and_post a b ≡ true
    → method_allowed a method ≡ true
    → method_allowed b method ≡ true
    → ⊥
unfolding get_and_post method_allowed text_eq
get_and_post_sound a b method h k l =
    let get : a ≡ codes "GET" = (text_eq_iff a (codes "GET")).0 (ground arith) in
    let post : b ≡ codes "POST" = (text_eq_iff b (codes "POST")).0 (ground arith) in
    let posted : method_allowed (codes "POST") method ≡ true =
      subst (λ t. method_allowed t method ≡ true) post l in
    let same : codes "POST" ≡ method =
      (text_eq_iff (codes "POST") method).0 (ground (arith, posted)) in
    let got : method_allowed (codes "GET") method ≡ true =
      subst (λ t. method_allowed t method ≡ true) get k in
    cc (subst (λ t. method_allowed (codes "GET") t ≡ true) (sym same) got)

unfoldable pub apart : Route → Route → Bool
apart r q =
    disjoint r.pattern q.pattern || get_and_post r.method q.method || get_and_post q.method r.method

unfoldable pub apart_all : Route → List Route → Bool
apart_all r [] = true
apart_all r (q ∷ rs) = apart r q && apart_all r rs

unfoldable pub conflict_free : List Route → Bool
conflict_free [] = true
conflict_free (r ∷ rs) = apart_all r rs && conflict_free rs

pub routes-conflict_free : conflict_free routes ≡ true
unfolding conflict_free apart_all apart disjoint get_and_post text_eq
routes-conflict_free = refl
