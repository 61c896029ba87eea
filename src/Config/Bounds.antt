-- ===== src/Config/Bounds.antt =====
-- What the settings that Load of internal/config/config.go returns are known to be.
use mathlib.Core.Path.{subst}
use toy_blockchain.Prelude.{
  ℕ, ◌≤◌, ◌≡◌, ◌≢◌, ◌↔◌, refl, ap, ◌∙◌, Option, none, some, [], ◌∷◌, Text, codes, text_eq,
  text_eq_iff, ◌==◌, ℤ, pos, negsuc, ltb_ℤ, max_int64, IsInt64, ok, arith, Result-cases,
  Option-cases, Bool-cases, inl, inr, false,
}
use toy_blockchain.Go.Map.{Map}
use toy_blockchain.Config.{
  Config, default, validate, atoi, as_positive, as_negative, read_number, env_int, getenv, env_str,
  resolve,
}

as_positive-IsInt64 : (r : Option ℕ) (i : ℤ) → as_positive r ≡ some i → IsInt64 i
as_positive-IsInt64 none i h = absurd (cc)
as_positive-IsInt64 (some n) (pos k) h = ground arith
as_positive-IsInt64 (some n) (negsuc k) h = absurd (ground arith)

as_negative-IsInt64 : (r : Option ℕ) (i : ℤ) → as_negative r ≡ some i → IsInt64 i
as_negative-IsInt64 none i h = absurd (cc)
as_negative-IsInt64 (some n) (pos k) h = ground arith
as_negative-IsInt64 (some n) (negsuc k) h = ground arith

pub atoi-IsInt64 : (s : Text) (i : ℤ) → atoi s ≡ some i → IsInt64 i
unfolding atoi
atoi-IsInt64 [] i h = absurd (cc)
atoi-IsInt64 (c ∷ rest) i h = elim (Bool-cases (c == b'-')) [
  | inl minus ↦ as_negative-IsInt64 (read_number rest) i (ground arith)
  | inr other ↦ elim (Bool-cases (c == b'+')) [
    | inl plus ↦ as_positive-IsInt64 (read_number rest) i (ground arith)
    | inr digit ↦ as_positive-IsInt64 (read_number (c ∷ rest)) i (ground arith)
  ]
]

env_int-IsInt64 :
    (key : Text) (def i : ℤ) (env : Map Text) → IsInt64 def → env_int key def env ≡ ok i → IsInt64 i
unfolding env_int
env_int-IsInt64 key def i env small h = elim (Bool-cases (text_eq (getenv key env) [])) [
  | inl unset ↦ let same : def ≡ i = ground (arith, h, unset) in subst IsInt64 same small
  | inr given ↦ elim (Option-cases (atoi (getenv key env))) [
    | inl a ↦ absurd (ground (arith, h, given, a))
    | inr (n, a) ↦
        let same : n ≡ i = ground (arith, h, given, a) in
        atoi-IsInt64 (getenv key env) i (a ∙ ap some same)
  ]
]

-- The settings that a run may have.
pub record IsUsable (cfg : Config) : Type 0 where
  pub difficulty : (d : ℕ) × (cfg.difficulty ≡ pos d) × (1 ≤ d) × (d ≤ 8)
  pub max_tx : (m : ℕ) × (cfg.max_tx_per_block ≡ pos m) × (1 ≤ m) × (m ≤ max_int64)
  pub reward : (r : ℕ) × (cfg.mining_reward ≡ pos r) × (r ≤ max_int64)
  pub named :
      (cfg.data_file ≢ []) × (cfg.key_file ≢ []) × (cfg.http_addr ≢ []) × (cfg.miner_address ≢ [])

at_least_one : (i : ℤ) → ltb_ℤ i (pos 1) ≡ false → (n : ℕ) × (i ≡ pos n) × (1 ≤ n)
at_least_one (pos n) h = (n, refl, ground arith)
at_least_one (negsuc n) h = absurd (ground arith)

not_negative : (i : ℤ) → ltb_ℤ i (pos 0) ≡ false → (n : ℕ) × (i ≡ pos n)
not_negative (pos n) h = (n, refl)
not_negative (negsuc n) h = absurd (ground arith)

not_empty : (t : Text) → text_eq t [] ≡ false → t ≢ []
not_empty t h e = cc (h, (text_eq_iff t []).1 e)

full : (t : Text) → t ≢ [] → text_eq t [] ≡ false
full t h = elim (Bool-cases (text_eq t [])) [
  | inl e ↦ absurd (h ((text_eq_iff t []).0 e))
  | inr e ↦ e
]

-- What the tests of Validate say when it returns nil.
validate_parts :
    (cfg : Config)
    → validate cfg ≡ ok tt
    → (ltb_ℤ cfg.difficulty (pos 1) ≡ false)
      × (ltb_ℤ (pos 8) cfg.difficulty ≡ false)
      × (ltb_ℤ cfg.max_tx_per_block (pos 1) ≡ false)
      × (text_eq cfg.data_file [] ≡ false)
      × (text_eq cfg.key_file [] ≡ false)
      × (text_eq cfg.http_addr [] ≡ false)
      × (text_eq cfg.miner_address [] ≡ false)
      × (ltb_ℤ cfg.mining_reward (pos 0) ≡ false)
unfolding validate
validate_parts cfg h = (
  ground arith,
  ground arith,
  ground arith,
  ground arith,
  ground arith,
  ground arith,
  ground arith,
  ground arith,
)

validate-IsUsable :
    (cfg : Config)
    → IsInt64 cfg.max_tx_per_block
    → IsInt64 cfg.mining_reward
    → validate cfg ≡ ok tt
    → IsUsable cfg
validate-IsUsable cfg hm hr h =
    let (low, high, room, data_file, key_file, http_addr, miner, reward) = validate_parts cfg h in
    let (d, de, dl) = at_least_one cfg.difficulty low in
    let (m, me, ml) = at_least_one cfg.max_tx_per_block room in
    let (r, re) = not_negative cfg.mining_reward reward in
    record {
      difficulty = (d, de, dl, ground (arith, high, de));
      max_tx = (m, me, ml, (subst IsInt64 me hm).0);
      reward = (r, re, (subst IsInt64 re hr).0);
      named = (
        not_empty cfg.data_file data_file,
        not_empty cfg.key_file key_file,
        not_empty cfg.http_addr http_addr,
        not_empty cfg.miner_address miner,
      );
    }

IsUsable-validate : (cfg : Config) → IsUsable cfg → validate cfg ≡ ok tt
unfolding validate
IsUsable-validate cfg u =
    let (d, de, dl, dh) = u.difficulty in
    let (m, me, ml, mh) = u.max_tx in
    let (r, re, rh) = u.reward in
    let (f, k, a, n) = u.named in
    ground (
      arith,
      full cfg.data_file f,
      full cfg.key_file k,
      full cfg.http_addr a,
      full cfg.miner_address n,
    )

-- Validate accepts exactly the usable settings, among those whose numbers are ints.
pub validate_exact :
    (cfg : Config)
    → IsInt64 cfg.max_tx_per_block
    → IsInt64 cfg.mining_reward
    → (validate cfg ≡ ok tt) ↔ IsUsable cfg
validate_exact cfg hm hr = (validate-IsUsable cfg hm hr, IsUsable-validate cfg)

-- The settings that Load puts together, before it validates them.
abbrev settings : Map Text → ℤ → ℤ → ℤ → Config
settings env difficulty max_tx reward = record {
  difficulty = difficulty;
  max_tx_per_block = max_tx;
  data_file = env_str (codes "TBC_DATA_FILE") default.data_file env;
  key_file = env_str (codes "TBC_KEY_FILE") default.key_file env;
  http_addr = env_str (codes "TBC_HTTP_ADDR") default.http_addr env;
  miner_address = env_str (codes "TBC_MINER_ADDRESS") default.miner_address env;
  mining_reward = reward;
}

-- Whatever the environment holds, the settings that Load returns are usable: a difficulty from 1 to
-- 8, a positive number of transactions and a reward that is not negative, both within int, and no
-- empty file, address or miner.
pub resolve-IsUsable : (env : Map Text) (cfg : Config) → resolve env ≡ ok cfg → IsUsable cfg
unfolding resolve
resolve-IsUsable env cfg h =
    elim (Result-cases (env_int (codes "TBC_DIFFICULTY") default.difficulty env)) [
      | inr (e, d) ↦ absurd (ground (arith, h, d))
      | inl (difficulty, d) ↦
          elim (Result-cases
            (env_int (codes "TBC_MAX_TX_PER_BLOCK") default.max_tx_per_block env)) [
              | inr (e, m) ↦ absurd (ground (arith, h, d, m))
              | inl (max_tx, m) ↦
                  elim (Result-cases
                    (env_int (codes "TBC_MINING_REWARD") default.mining_reward env)) [
                      | inr (e, r) ↦ absurd (ground (arith, h, d, m, r))
                      | inl (reward, r) ↦
                          let c = settings env difficulty max_tx reward in
                          elim (Result-cases (validate c)) [
                            | inr (e, v) ↦ absurd (ground (arith, h, d, m, r, v))
                            | inl (u, v) ↦
                                let same : c ≡ cfg = ground (arith, h, d, m, r, v) in
                                subst IsUsable same (
                                  validate-IsUsable c
                                    (env_int-IsInt64 (codes "TBC_MAX_TX_PER_BLOCK")
                                      default.max_tx_per_block max_tx env (omega arith) m)
                                    (env_int-IsInt64 (codes "TBC_MINING_REWARD")
                                      default.mining_reward reward env (omega arith) r)
                                    v)
                          ]
                    ]
            ]
    ]
