-- ===== src/Config/Load.antt =====
-- Load of internal/config/config.go: the .env file first, then the environment that it leaves.
use toy_blockchain.Prelude.{
  ◌≡◌, refl, sym, ap, ◌∙◌, List, [], ◌∷◌, none, some, Text, text_eq, ℤ, All, if◌then◌else◌, arith,
  inl, inr, Result, ok, err, Result-cases,
}
use toy_blockchain.Go.Map.{Map, lookup, get}
use toy_blockchain.Config.{
  Config, ConfigError, not_a_number, atoi, default, getenv, env_str, env_int, resolve,
  env_difficulty, env_max_tx_per_blk, env_data_file, env_key_file, env_http_addr, env_miner_address,
  env_mining_reward,
}
use toy_blockchain.Config.Bounds.{IsUsable, resolve-IsUsable}
use toy_blockchain.DotEnv.{DotEnvError, Opened, load_dot_env, load_dot_env-kept}

pub data LoadError : Type 0 where
  from_file : DotEnvError → LoadError
  from_settings : ConfigError → LoadError

-- The settings, and the environment that the process is left with.
unfoldable pub load : Opened → Map Text → Result LoadError Config × Map Text
load file env =
    let (r, env') = load_dot_env file env in
    elim r [
      | err e ↦ (err (from_file e), env')
      | ok _ ↦ (elim (resolve env') [ err e ↦ err (from_settings e) | ok cfg ↦ ok cfg ], env')
    ]

abbrev pub variables : List Text
variables =
    env_difficulty ∷ env_max_tx_per_blk ∷ env_data_file ∷ env_key_file ∷ env_http_addr
    ∷ env_miner_address ∷ env_mining_reward ∷ []

env_str_same :
    (k def : Text) (env env' : Map Text)
    → getenv k env' ≡ getenv k env
    → env_str k def env' ≡ env_str k def env
unfolding env_str
env_str_same k def env env' e = ap (λ v. if text_eq v [] then def else v) e

env_int_same :
    (k : Text) (def : ℤ) (env env' : Map Text)
    → getenv k env' ≡ getenv k env
    → env_int k def env' ≡ env_int k def env
unfolding env_int
env_int_same k def env env' e =
    ap
      (λ v.
        if text_eq v []
        then ok def
        else (elim (atoi v) [ none ↦ err (not_a_number k v) | some n ↦ ok n ]))
      e

-- The settings depend on the seven variables only.
resolve_same :
    (env env' : Map Text)
    → All (λ k. getenv k env' ≡ getenv k env) variables
    → resolve env' ≡ resolve env
unfolding resolve
resolve_same env env' (d, (m, (f, (k, (a, (n, (r, _))))))) =
    rw
      (
        env_int_same env_difficulty default.difficulty env env' d,
        env_int_same env_max_tx_per_blk default.max_tx_per_block env env' m,
        env_int_same env_mining_reward default.mining_reward env env' r,
        env_str_same env_data_file default.data_file env env' f,
        env_str_same env_key_file default.key_file env env' k,
        env_str_same env_http_addr default.http_addr env env' a,
        env_str_same env_miner_address default.miner_address env env' n,
      )
      refl

loaded :
    (file : Opened) (env : Map Text) (cfg : Config)
    → (load file env).0 ≡ ok cfg
    → resolve (load file env).1 ≡ ok cfg
unfolding load
loaded file env cfg h = elim (Result-cases (load_dot_env file env).0) [
  | inr (e, r) ↦ absurd (ground (arith, h, r))
  | inl (u, r) ↦ elim (Result-cases (resolve (load_dot_env file env).1)) [
    | inr (e, q) ↦ absurd (ground (arith, h, r, q))
    | inl (c, q) ↦ ground (arith, h, r, q)
  ]
]

getenv_kept :
    (file : Opened) (k v : Text) (env : Map Text)
    → lookup k env ≡ some v
    → getenv k (load_dot_env file env).1 ≡ getenv k env
unfolding getenv get
getenv_kept file k v env h = rw (h, load_dot_env-kept file k v env h, get) refl

load-left : (file : Opened) (env : Map Text) → (load file env).1 ≡ (load_dot_env file env).1
unfolding load
load-left file env = elim (Result-cases (load_dot_env file env).0) [
  | inr (e, r) ↦ ground (arith, r)
  | inl (u, r) ↦ ground (arith, r)
]

variables_kept :
    (file : Opened) (env : Map Text) (l : List Text)
    → All (λ k. (v : Text) × (lookup k env ≡ some v)) l
    → All (λ k. getenv k (load file env).1 ≡ getenv k env) l
variables_kept file env [] h = tt
variables_kept file env (k ∷ l) h = (
  ap (getenv k) (load-left file env) ∙ getenv_kept file k h.0.0 env h.0.1,
  variables_kept file env l h.1,
)

-- Whatever the .env file and the environment hold: settings that Load returns are usable (a
-- difficulty from 1 to 8, a positive number of transactions and a reward that is not negative, both
-- within int, no empty file, address or miner); no variable of the environment has another value
-- afterwards, also where Load returns an error; and where the environment has all seven variables,
-- the settings are those of the environment alone.
pub load_layers :
    (file : Opened) (env : Map Text)
    → let (r, left) = load file env in
      ((cfg : Config) → r ≡ ok cfg → IsUsable cfg)
      × ((k v : Text) → lookup k env ≡ some v → lookup k left ≡ some v)
      × ((cfg : Config)
          → All (λ k. (v : Text) × (lookup k env ≡ some v)) variables
          → r ≡ ok cfg
          → resolve env ≡ ok cfg)
load_layers file env = (
  (λ cfg h. resolve-IsUsable (load file env).1 cfg (loaded file env cfg h)),
  (λ k v h. ap (lookup k) (load-left file env) ∙ load_dot_env-kept file k v env h),
  (λ cfg set h.
      sym (resolve_same env (load file env).1 (variables_kept file env variables set))
      ∙ loaded file env cfg h),
)
