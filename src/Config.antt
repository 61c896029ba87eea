-- ===== src/Config.antt =====
-- internal/config/config.go: the settings and their validation. The environment is a map; what
-- Getenv returns on a missing key is the empty string.
pub mod Bounds
pub mod Load
use toy_blockchain.Prelude.{
  ℕ, ◌+◌, ◌-◌, ◌*◌, ◌&&◌, ◌||◌, Option, none, some, [], ◌∷◌, ⊤, Text, codes, text_eq, leb, ◌==◌,
  if◌then◌else◌, ℤ, pos, negsuc, ltb_ℤ, max_int64, Result, ok, err, ◌>>=◌, ◌>>◌, reject,
}
use toy_blockchain.Go.Map.{Map, get}

-- The names of the environment variables.
abbrev pub env_difficulty : Text
env_difficulty = codes "TBC_DIFFICULTY"

abbrev pub env_max_tx_per_blk : Text
env_max_tx_per_blk = codes "TBC_MAX_TX_PER_BLOCK"

abbrev pub env_data_file : Text
env_data_file = codes "TBC_DATA_FILE"

abbrev pub env_key_file : Text
env_key_file = codes "TBC_KEY_FILE"

abbrev pub env_http_addr : Text
env_http_addr = codes "TBC_HTTP_ADDR"

abbrev pub env_miner_address : Text
env_miner_address = codes "TBC_MINER_ADDRESS"

abbrev pub env_mining_reward : Text
env_mining_reward = codes "TBC_MINING_REWARD"

pub record Config : Type 0 where
  pub difficulty : ℤ
  pub max_tx_per_block : ℤ
  pub data_file : Text
  pub key_file : Text
  pub http_addr : Text
  pub miner_address : Text
  pub mining_reward : ℤ

pub data ConfigError : Type 0 where
  bad_difficulty bad_max_tx negative_reward : ℤ → ConfigError
  empty_data_file empty_key_file empty_http_addr empty_miner_address : ConfigError
  not_a_number : Text → Text → ConfigError

abbrev pub max_difficulty : ℤ
max_difficulty = pos 8

abbrev pub default : Config
default = record {
  difficulty = pos 4;
  max_tx_per_block = pos 10;
  data_file = codes "data/chain.json";
  key_file = codes "data/keys.json";
  http_addr = codes "127.0.0.1:8080";
  miner_address = codes "miner";
  mining_reward = pos 50;
}

unfoldable pub validate : Config → Result ConfigError ⊤
validate c = do
  reject (ltb_ℤ c.difficulty (pos 1) || ltb_ℤ max_difficulty c.difficulty)
      (bad_difficulty c.difficulty)
  reject (ltb_ℤ c.max_tx_per_block (pos 1)) (bad_max_tx c.max_tx_per_block)
  reject (text_eq c.data_file []) empty_data_file
  reject (text_eq c.key_file []) empty_key_file
  reject (text_eq c.http_addr []) empty_http_addr
  reject (text_eq c.miner_address []) empty_miner_address
  reject (ltb_ℤ c.mining_reward (pos 0)) (negative_reward c.mining_reward)

-- `os.Getenv`
unfoldable pub getenv : Text → Map Text → Text
getenv key env = get [] key env

unfoldable pub env_str : Text → Text → Map Text → Text
env_str key def env = let v = getenv key env in if text_eq v [] then def else v

-- strconv.Atoi: an optional sign and at least one digit, within int.
unfoldable pub read_digits : ℕ → Text → Option ℕ
read_digits n [] = some n
read_digits n (d ∷ rest) =
    let more = read_digits (n * 10 + (d - b'0')) rest in
    if leb b'0' d && leb d b'9' then more else none

abbrev pub read_number : Text → Option ℕ
read_number [] = none
read_number (d ∷ rest) = read_digits 0 (d ∷ rest)

abbrev pub as_positive : Option ℕ → Option ℤ
as_positive none = none
as_positive (some n) = if leb n max_int64 then some (pos n) else none

abbrev pub as_negative : Option ℕ → Option ℤ
as_negative none = none
as_negative (some n) =
    if n == 0 then some (pos 0) else if leb n (max_int64 + 1) then some (negsuc (n - 1)) else none

unfoldable pub atoi : Text → Option ℤ
atoi [] = none
atoi (c ∷ rest) =
    if c == b'-'
    then as_negative (read_number rest)
    else if c == b'+'
    then as_positive (read_number rest)
    else as_positive (read_number (c ∷ rest))

unfoldable pub env_int : Text → ℤ → Map Text → Result ConfigError ℤ
env_int key def env =
    let v = getenv key env in
    if text_eq v []
    then ok def
    else elim (atoi v) [ none ↦ err (not_a_number key v) | some n ↦ ok n ]

-- The part of `Load` after the .env file has been read into the environment. `Load` returns the
-- settings beside the error of Validate; callers read them only where there is none.
unfoldable pub resolve : Map Text → Result ConfigError Config
resolve env = do
  difficulty ← env_int env_difficulty default.difficulty env
  max_tx ← env_int env_max_tx_per_blk default.max_tx_per_block env
  reward ← env_int env_mining_reward default.mining_reward env
  let c = record default {
    difficulty = difficulty;
    max_tx_per_block = max_tx;
    data_file = env_str env_data_file default.data_file env;
    key_file = env_str env_key_file default.key_file env;
    http_addr = env_str env_http_addr default.http_addr env;
    miner_address = env_str env_miner_address default.miner_address env;
    mining_reward = reward;
  }
  validate c
  ok c
