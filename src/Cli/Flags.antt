-- ===== src/Cli/Flags.antt =====
-- parseFlags in internal/cli/cli.go, with what package flag and strconv.ParseInt in base 0 do for it.
use toy_blockchain.Prelude.{
  ℕ, ◌+◌, ◌-◌, ◌*◌, Bool, true, false, not, ◌&&◌, ◌||◌, Option, none, some, List, [], ◌∷◌, Text,
  codes, text_eq, leb, ltb, ◌==◌, if◌then◌else◌, ℤ, Result, ok, err,
}
use toy_blockchain.Config.{Config, ConfigError, as_positive, as_negative}
use toy_blockchain.Config

pub data FlagError : Type 0 where
  bad_syntax no_such_flag no_argument bad_value : Text → FlagError
  help : FlagError
  bad_config : ConfigError → FlagError

-- `lower` in strconv: c | 0x20 for the bytes that matter here.
unfoldable pub lower : ℕ → ℕ
lower b = if leb b'A' b && leb b b'Z' then b + 32 else b

unfoldable pub digit_value : ℕ → Option ℕ
digit_value b =
    if leb b'0' b && leb b b'9'
    then some (b - b'0')
    else if leb b'a' (lower b) && leb (lower b) b'z'
    then some (lower b - b'a' + 10)
    else none

-- The digits of ParseUint in a base; underscores are skipped.
unfoldable pub read_base : ℕ → ℕ → Text → Option ℕ
read_base base n [] = some n
read_base base n (b ∷ rest) = elim (b == b'_') [
  | true ↦ read_base base n rest
  | false ↦ elim (digit_value b) [
    | none ↦ none
    | some d ↦ elim (ltb d base) [ true ↦ read_base base (n * base + d) rest | false ↦ none ]
  ]
]

-- What precedes a byte in underscoreOK: a digit or the prefix of the base, an underscore, or neither.
pub data Before : Type 0 where
  at_digit at_underscore elsewhere : Before

abbrev pub is_digit : Bool → ℕ → Bool
is_digit hex b = leb b'0' b && leb b b'9' || hex && leb b'a' (lower b) && leb (lower b) b'f'

unfoldable pub underscores : Bool → Before → Text → Bool
underscores hex at_underscore [] = false
underscores hex _ [] = true
underscores hex before (b ∷ rest) = elim (is_digit hex b) [
  | true ↦ underscores hex at_digit rest
  | false ↦ elim (b == b'_') [
    | true ↦ elim before [ at_digit ↦ underscores hex at_underscore rest | _ ↦ false ]
    | false ↦ elim before [ at_underscore ↦ false | _ ↦ underscores hex elsewhere rest ]
  ]
]

-- The number after its sign: a prefix 0b, 0o or 0x, or 0 for base 8.
unfoldable pub read_prefixed : Text → Option ℕ
read_prefixed [] = none
read_prefixed (a ∷ []) = if a == b'_' then none else read_base 10 0 (a ∷ [])
read_prefixed (a ∷ b ∷ []) =
    if underscores false elsewhere (a ∷ b ∷ [])
    then read_base (if a == b'0' then 8 else 10) 0 (a ∷ b ∷ [])
    else none
read_prefixed (a ∷ b ∷ d ∷ rest) =
    let tail = d ∷ rest in
    if a == b'0' && lower b == b'b'
    then (if underscores false at_digit tail then read_base 2 0 tail else none)
    else if a == b'0' && lower b == b'o'
    then (if underscores false at_digit tail then read_base 8 0 tail else none)
    else if a == b'0' && lower b == b'x'
    then (if underscores true at_digit tail then read_base 16 0 tail else none)
    else if underscores false elsewhere (a ∷ b ∷ tail)
    then read_base (if a == b'0' then 8 else 10) 0 (a ∷ b ∷ tail)
    else none

-- strconv.ParseInt(s, 0, 64)
unfoldable pub parse_int : Text → Option ℤ
parse_int [] = none
parse_int (c ∷ rest) =
    if c == b'-'
    then as_negative (read_prefixed rest)
    else if c == b'+'
    then as_positive (read_prefixed rest)
    else as_positive (read_prefixed (c ∷ rest))

abbrev pub with_int : Text → Text → (ℤ → Config) → Result FlagError Config
with_int name value set = elim (parse_int value) [
  | none ↦ err (bad_value name)
  | some n ↦ ok (set n)
]

-- The seven flags.
unfoldable pub set_flag : Text → Text → Config → Option (Result FlagError Config)
set_flag name value cfg =
    if text_eq name (codes "difficulty")
    then some (with_int name value (λ n. record cfg { difficulty = n }))
    else if text_eq name (codes "max-tx")
    then some (with_int name value (λ n. record cfg { max_tx_per_block = n }))
    else if text_eq name (codes "data")
    then some (ok (record cfg { data_file = value }))
    else if text_eq name (codes "keys")
    then some (ok (record cfg { key_file = value }))
    else if text_eq name (codes "addr")
    then some (ok (record cfg { http_addr = value }))
    else if text_eq name (codes "miner")
    then some (ok (record cfg { miner_address = value }))
    else if text_eq name (codes "reward")
    then some (with_int name value (λ n. record cfg { mining_reward = n }))
    else none

-- One argument: no flag, the end `--`, a flag, or a mistake.
pub data Argument : Type 0 where
  positional terminator malformed : Argument
  flag : Text → Option Text → Argument

-- A flag's name and value around the first `=` after its first byte.
unfoldable pub split_value : Text → Text × Option Text
split_value [] = ([], none)
split_value (b ∷ rest) =
    let (name, value) = split_value rest in if b == b'=' then ([], some rest) else (b ∷ name, value)

unfoldable pub flag_named : Text → Argument
flag_named [] = malformed
flag_named (b ∷ rest) =
    if b == b'-' || b == b'='
    then malformed
    else (let (name, value) = split_value rest in flag (b ∷ name) value)

unfoldable pub read_argument : Text → Argument
read_argument [] = positional
read_argument (a ∷ []) = positional
read_argument (a ∷ b ∷ rest) =
    if not (a == b'-')
    then positional
    else if b == b'-'
    then (if text_eq rest [] then terminator else flag_named rest)
    else flag_named (b ∷ rest)

abbrev pub set_or_fail : Text → Text → Config → Result FlagError Config
set_or_fail name value cfg = elim (set_flag name value cfg) [
  | some r ↦ r
  | none ↦
      if text_eq name (codes "help") || text_eq name (codes "h")
      then err help
      else err (no_such_flag name)
]

abbrev pub has_flag : Text → Config → Bool
has_flag name cfg = elim (set_flag name [] cfg) [ some _ ↦ true | none ↦ false ]

-- FlagSet.Parse
unfoldable pub parse : List Text → Config → Result FlagError (Config × List Text)
parse [] cfg = ok (cfg, [])
parse (arg ∷ []) cfg = elim (read_argument arg) [
  | positional ↦ ok (cfg, arg ∷ [])
  | terminator ↦ ok (cfg, [])
  | malformed ↦ err (bad_syntax arg)
  | flag name (some value) ↦ elim (set_or_fail name value cfg) [
    | err e ↦ err e
    | ok cfg' ↦ ok (cfg', [])
  ]
  | flag name none ↦
      if has_flag name cfg
      then err (no_argument name)
      else (elim (set_or_fail name [] cfg) [ err e ↦ err e | ok cfg' ↦ ok (cfg', []) ])
]
parse (arg ∷ next ∷ args) cfg = elim (read_argument arg) [
  | positional ↦ ok (cfg, arg ∷ next ∷ args)
  | terminator ↦ ok (cfg, next ∷ args)
  | malformed ↦ err (bad_syntax arg)
  | flag name (some value) ↦ elim (set_or_fail name value cfg) [
    | err e ↦ err e
    | ok cfg' ↦ parse (next ∷ args) cfg'
  ]
  | flag name none ↦ elim (set_or_fail name next cfg) [ err e ↦ err e | ok cfg' ↦ parse args cfg' ]
]

-- The settings after the flags, and the command with its arguments; the settings must be valid.
unfoldable pub parse_flags : List Text → Config → Result FlagError (Config × List Text)
parse_flags args cfg = elim (parse args cfg) [
  | err e ↦ err e
  | ok (cfg', rest) ↦ elim (Config.validate cfg') [
    | err e ↦ err (bad_config e)
    | ok _ ↦ ok (cfg', rest)
  ]
]
