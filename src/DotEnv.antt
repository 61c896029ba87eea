-- ===== src/DotEnv.antt =====
-- internal/config/dotenv.go. What the file yields line by line is an argument, and the environment
-- is a map. TrimSpace is modelled for ASCII spaces.
use toy_blockchain.Prelude.{
  ℕ, suc, ◌≡◌, refl, Bool, true, not, ◌&&◌, ◌||◌, Option, none, some, List, [], ◌∷◌, ⊤, Text, codes,
  text_eq, text_eq_iff, leb, ◌==◌, if◌then◌else◌, Result, ok, err, arith, inl, inr, Result-cases,
  Option-cases, ◌⊎◌,
}
use toy_blockchain.Go.Map.{Map, lookup, insert, lookup-insert}
use toy_blockchain.Block.Header.{has_prefix}

pub data DotEnvError : Type 0 where
  not_opened not_scanned : DotEnvError
  not_a_setting not_exported : ℕ → DotEnvError

-- What Open and the Scanner answer: no file, an error, or lines and whether reading failed after them.
pub data Opened : Type 0 where
  missing unreadable : Opened
  lines : List Text → Bool → Opened

pub data Line : Type 0 where
  skipped malformed : Line
  setting : Text → Text → Line

unfoldable pub is_space : ℕ → Bool
is_space b = leb 9 b && leb b 13 || b == 32

unfoldable pub is_quote : ℕ → Bool
is_quote b = b == 34 || b == 39

unfoldable pub trim_left : (ℕ → Bool) → Text → Text
trim_left p [] = []
trim_left p (b ∷ x) = let rest = trim_left p x in if p b then rest else b ∷ x

unfoldable pub trim_right : (ℕ → Bool) → Text → Text
trim_right p [] = []
trim_right p (b ∷ x) = elim (trim_right p x) [
  | [] ↦ if p b then [] else b ∷ []
  | d ∷ rest ↦ b ∷ d ∷ rest
]

abbrev pub trim : (ℕ → Bool) → Text → Text
trim p s = trim_right p (trim_left p s)

-- strings.Cut at the first `=`
unfoldable pub cut : Text → Option (Text × Text)
cut [] = none
cut (b ∷ x) =
    let rest = cut x in
    if b == b'=' then some ([], x) else elim rest [ none ↦ none | some (k, v) ↦ some (b ∷ k, v) ]

unfoldable pub parse_line : Text → Line
parse_line raw =
    let text = trim is_space raw in
    if text_eq text [] || has_prefix text (codes "#") then skipped else elim (cut text) [
      | none ↦ malformed
      | some (k, v) ↦ setting (trim is_space k) (trim is_quote (trim is_space v))
    ]

-- No byte is zero.
unfoldable pub no_nul : Text → Bool
no_nul [] = true
no_nul (b ∷ x) = not (b == 0) && no_nul x

-- os.Setenv refuses an empty key and a zero byte; a key has no `=` after Cut.
unfoldable pub setenv : Text → Text → Map Text → Option (Map Text)
setenv key value env =
    if not (text_eq key []) && no_nul key && no_nul value then some (insert key value env) else none

-- `if _, set := os.LookupEnv(key); !set`
unfoldable pub export : Text → Text → Map Text → Option (Map Text)
export key value env = elim (lookup key env) [ some _ ↦ some env | none ↦ setenv key value env ]

-- The loop, with the number of the line.
unfoldable pub load_lines : ℕ → List Text → Map Text → Result DotEnvError ⊤ × Map Text
load_lines line [] env = (ok tt, env)
load_lines line (raw ∷ rest) env = elim (parse_line raw) [
  | skipped ↦ load_lines (suc line) rest env
  | malformed ↦ (err (not_a_setting line), env)
  | setting key value ↦ elim (export key value env) [
    | none ↦ (err (not_exported line), env)
    | some env' ↦ load_lines (suc line) rest env'
  ]
]

unfoldable pub load_dot_env : Opened → Map Text → Result DotEnvError ⊤ × Map Text
load_dot_env missing env = (ok tt, env)
load_dot_env unreadable env = (err not_opened, env)
load_dot_env (lines l failed) env =
    let (r, env') = load_lines 1 l env in
    elim r [ err e ↦ (err e, env') | ok _ ↦ (if failed then err not_scanned else ok tt, env') ]

export-kept :
    (key value k v : Text) (env env' : Map Text)
    → export key value env ≡ some env'
    → lookup k env ≡ some v
    → lookup k env' ≡ some v
unfolding export setenv
export-kept key value k v env env' e h =
    ground (arith, e, h, lookup-insert key k value env, text_eq_iff key k)

Line-cases :
    (p : Line)
    → (p ≡ skipped) ⊎ ((p ≡ malformed) ⊎ ((key : Text) × (value : Text) × (p ≡ setting key value)))
Line-cases skipped = inl refl
Line-cases malformed = inr (inl refl)
Line-cases (setting key value) = inr (inr (key, value, refl))

load_lines-kept :
    (line : ℕ) (l : List Text) (k v : Text) (env : Map Text)
    → lookup k env ≡ some v
    → lookup k (load_lines line l env).1 ≡ some v
unfolding load_lines
load_lines-kept line [] k v env h = h
load_lines-kept line (raw ∷ rest) k v env h = elim (Line-cases (parse_line raw)) [
  | inl e ↦ ground (arith, e, load_lines-kept (suc line) rest k v env h)
  | inr (inl e) ↦ ground (arith, e, h)
  | inr (inr (key, value, e)) ↦ elim (Option-cases (export key value env)) [
    | inl o ↦ ground (arith, e, o, h)
    | inr (env', o) ↦ ground (
      arith,
      e,
      o,
      load_lines-kept (suc line) rest k v env' (export-kept key value k v env env' o h),
    )
  ]
]

-- A variable that the environment already has keeps its value whatever the file holds, also where
-- the loading stops at an error.
pub load_dot_env-kept :
    (file : Opened) (k v : Text) (env : Map Text)
    → lookup k env ≡ some v
    → lookup k (load_dot_env file env).1 ≡ some v
unfolding load_dot_env
load_dot_env-kept missing k v env h = h
load_dot_env-kept unreadable k v env h = h
load_dot_env-kept (lines l failed) k v env h =
    let kept = load_lines-kept 1 l k v env h in
    elim (Result-cases (load_lines 1 l env).0) [
      | inl (u, e) ↦ ground (arith, e, kept)
      | inr (e', e) ↦ ground (arith, e, kept)
    ]
