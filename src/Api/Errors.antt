-- ===== src/Api/Errors.antt =====
-- jsonErrors in internal/api/server.go: the ResponseWriter between a handler and the one of net/http.
-- What the handler does to it and what it passes on are lists of calls; json.Marshal is a parameter.
use toy_blockchain.Prelude.{
  ℕ, ◌≡◌, ◌⊎◌, inl, inr, refl, Bool, true, false, not, ◌&&◌, ◌||◌, ◌==◌, Bool-cases, Option, none,
  some, List, [], ◌∷◌, ◌++◌, Text, codes, text_eq, text_eq_iff, ap, ◌≢◌, Option-cases,
  if◌then◌else◌, arith,
}
use toy_blockchain.DotEnv.{trim, is_space}

-- `Header().Set("Content-Type", …)`, `WriteHeader` and `Write`.
pub data Call : Type 0 where
  set_type : Text → Call
  write_header : ℕ → Call
  write : Text → Call

-- The header is the one of the writer below; `rewrite` is false at first.
pub record Rewriter : Type 0 where
  pub content_type : Text
  pub rewrite : Bool

abbrev pub json_type : Text
json_type = codes "application/json"

-- errorRewriter.WriteHeader rewrites what is not typed as JSON yet.
unfoldable pub from_router : ℕ → Text → Bool
from_router code content_type = (code == 404 || code == 405) && not (text_eq content_type json_type)

-- One call: what goes on to the writer below, and the state after it. `marshal` is json.Marshal of
-- the object with the one field error.
unfoldable pub pass_on : (Text → Option Text) → Call → Rewriter → List Call × Rewriter
pass_on marshal (set_type t) w = (set_type t ∷ [], record w { content_type = t })
pass_on marshal (write_header code) w =
    if from_router code w.content_type
    then (
      set_type json_type ∷ write_header code ∷ [],
      record { content_type = json_type; rewrite = true },
    )
    else (write_header code ∷ [], w)
pass_on marshal (write b) w = if not w.rewrite then (write b ∷ [], w) else (
  elim (marshal (trim is_space b)) [ none ↦ write b ∷ [] | some body ↦ write body ∷ [] ],
  record w { rewrite = false },
)

unfoldable pub pass_all : (Text → Option Text) → List Call → Rewriter → List Call
pass_all marshal [] w = []
pass_all marshal (a ∷ calls) w =
    let (out, w') = pass_on marshal a w in out ++ pass_all marshal calls w'

-- The content type after a call.
abbrev typed : Call → Text → Text
typed (set_type t) content_type = t
typed _ content_type = content_type

abbrev pub is_error : ℕ → Bool
is_error code = code == 404 || code == 405

-- Every 404 and 405 goes out with the JSON content type.
abbrev pub JsonErrors : List Call → Text → Type 0
JsonErrors [] t = Unit
JsonErrors (write_header code ∷ calls) t =
    ((is_error code ≡ false) ⊎ (t ≡ json_type)) × JsonErrors calls t
JsonErrors (a ∷ calls) t = JsonErrors calls (typed a t)

-- No header looks as if it came from the router.
abbrev pub Unrouted : List Call → Text → Type 0
Unrouted [] t = Unit
Unrouted (write_header code ∷ calls) t = (from_router code t ≡ false) × Unrouted calls t
Unrouted (a ∷ calls) t = Unrouted calls (typed a t)

module _ (marshal : Text → Option Text) where
  untouched :
      (calls : List Call) (t : Text)
      → Unrouted calls t
      → pass_all marshal calls (record { content_type = t; rewrite = false }) ≡ calls
  unfolding pass_all pass_on
  untouched [] t h = refl
  untouched (set_type u ∷ calls) t h = rw (untouched calls u h) refl
  untouched (write b ∷ calls) t h = rw (untouched calls t h) refl
  untouched (write_header code ∷ calls) t (h, rest) =
      rw h (ap (λ l. write_header code ∷ l) (untouched calls t rest))

  Unrouted-cases : (calls : List Call) (t : Text) → Unrouted calls t ⊎ (¬ Unrouted calls t)
  Unrouted-cases [] t = inl tt
  Unrouted-cases (set_type u ∷ calls) t = Unrouted-cases calls u
  Unrouted-cases (write b ∷ calls) t = Unrouted-cases calls t
  Unrouted-cases (write_header code ∷ calls) t = elim (Bool-cases (from_router code t)) [
    | inl r ↦ inr (λ u. cc (r, u.0))
    | inr r ↦ elim (Unrouted-cases calls t) [ inl u ↦ inl (r, u) | inr n ↦ inr (λ u. n u.1) ]
  ]

  not_router :
      (code : ℕ) (t : Text) → from_router code t ≡ false → (is_error code ≡ false) ⊎ (t ≡ json_type)
  unfolding from_router
  not_router code t h = elim (Bool-cases (text_eq t json_type)) [
    | inl same ↦ inr ((text_eq_iff t json_type).0 same)
    | inr other ↦ inl (ground (arith, h, other))
  ]

  pass_all-JsonErrors :
      (calls : List Call) (t : Text) (b : Bool)
      → JsonErrors (pass_all marshal calls (record { content_type = t; rewrite = b })) t
  unfolding pass_all pass_on
  pass_all-JsonErrors [] t b = tt
  pass_all-JsonErrors (set_type u ∷ calls) t b = pass_all-JsonErrors calls u b
  pass_all-JsonErrors (write x ∷ calls) t false = pass_all-JsonErrors calls t false
  pass_all-JsonErrors (write x ∷ calls) t true = elim (Option-cases (marshal (trim is_space x))) [
    | inl e ↦ rw e (pass_all-JsonErrors calls t false)
    | inr (body, e) ↦ rw e (pass_all-JsonErrors calls t false)
  ]
  pass_all-JsonErrors (write_header code ∷ calls) t b = elim (Bool-cases (from_router code t)) [
    | inl r ↦ rw r (inr refl, pass_all-JsonErrors calls json_type true)
    | inr r ↦ rw r (not_router code t r, pass_all-JsonErrors calls t b)
  ]

  -- Whatever calls a handler makes, every 404 and 405 goes out typed as JSON; and either no header of
  -- the handler looked as if it came from the router, and then all calls went through as they were,
  -- or one did.
  pub errors_in_one_shape :
      (calls : List Call) (t : Text)
      → let out = pass_all marshal calls (record { content_type = t; rewrite = false }) in
        JsonErrors out t × ((Unrouted calls t × (out ≡ calls)) ⊎ (¬ Unrouted calls t))
  errors_in_one_shape calls t = (
    pass_all-JsonErrors calls t false,
    elim (Unrouted-cases calls t) [ inl u ↦ inl (u, untouched calls t u) | inr n ↦ inr n ],
  )

  router_header :
      (code : ℕ) (t : Text) → is_error code ≡ true → t ≢ json_type → from_router code t ≡ true
  unfolding from_router
  router_header code t e other = elim (Bool-cases (text_eq t json_type)) [
    | inl same ↦ absurd (other ((text_eq_iff t json_type).0 same))
    | inr apart ↦ ground (arith, e, apart)
  ]

  -- The reply of the router itself, a header and a text, goes out as that header typed as JSON and
  -- the JSON of the trimmed text.
  pub router_reply :
      (code : ℕ) (t msg body : Text)
      → is_error code ≡ true
      → t ≢ json_type
      → marshal (trim is_space msg) ≡ some body
      → pass_all marshal
          (write_header code ∷ write msg ∷ [])
          (record { content_type = t; rewrite = false })
        ≡ set_type json_type ∷ write_header code ∷ write body ∷ []
  unfolding pass_all pass_on
  router_reply code t msg body e other m = rw (router_header code t e other, m) refl
