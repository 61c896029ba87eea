-- ===== src/Ledger/Transaction.antt =====
-- internal/ledger/transaction.go: the transaction, its byte encodings and the address rules, and
-- the errors of the package. What needs the hash or the signature scheme is in Signature.
use toy_blockchain.Prelude.{
  ℕ, Bool, true, ◌&&◌, ◌||◌, [], ◌∷◌, ◌++◌, ⊤, Text, codes, text_eq, length, leb, ltb, ◌==◌,
  if◌then◌else◌, ℤ, Result, ◌>>◌, reject, require,
}
use toy_blockchain.Go.Decimal.{format_uint, format_int}

-- From, To, Amount, Timestamp, PubKey, Signature; the two int64 fields are integers.
pub record Transaction : Type 0 where
  pub from : Text
  pub to : Text
  pub amount : ℤ
  pub timestamp : ℤ
  pub pub_key : Text
  pub signature : Text

pub data Role : Type 0 where
  recipient sender : Role

-- One constructor for each error that the package returns, with the values that its message shows.
-- `bad_character` leaves out the offending rune.
pub data LedgerError : Type 0 where
  amount_not_positive : ℤ → LedgerError
  empty_address long_address : Role → LedgerError
  bad_character : Role → Text → LedgerError
  signed_coinbase bad_public_key bad_signature altered : LedgerError
  same_account unsigned would_overflow : Text → LedgerError
  wrong_key : Text → Text → LedgerError
  insufficient_funds : Text → ℤ → ℤ → LedgerError
  in_transaction : ℕ → Transaction → LedgerError → LedgerError
  stale_pool : LedgerError → LedgerError

abbrev pub coinbase : Text
coinbase = []

abbrev pub max_address_len : ℕ
max_address_len = 64

unfoldable pub new_transfer : Text → Text → ℤ → ℤ → Transaction
new_transfer from to amount timestamp = record {
  from = from;
  to = to;
  amount = amount;
  timestamp = timestamp;
  pub_key = [];
  signature = [];
}

unfoldable pub new_coinbase : Text → ℤ → ℤ → Transaction
new_coinbase to amount timestamp = record {
  from = coinbase;
  to = to;
  amount = amount;
  timestamp = timestamp;
  pub_key = [];
  signature = [];
}

unfoldable pub is_coinbase : Transaction → Bool
is_coinbase t = text_eq t.from coinbase

unfoldable pub is_allowed : ℕ → Bool
is_allowed r =
    leb b'a' r && leb r b'z'
    || leb b'A' r && leb r b'Z'
    || leb b'0' r && leb r b'9'
    || r == b'-'
    || r == b'_'

-- The loop over the characters. A byte from 0x80 on belongs to a rune that is not allowed either,
-- so the loop over bytes accepts what the loop over runes accepts.
unfoldable pub all_allowed : Text → Bool
all_allowed [] = true
all_allowed (r ∷ rest) = is_allowed r && all_allowed rest

unfoldable pub valid_address : Role → Text → Result LedgerError ⊤
valid_address role addr = do
  reject (text_eq addr []) (empty_address role)
  reject (ltb max_address_len (length addr)) (long_address role)
  require (all_allowed addr) (bad_character role addr)

-- `writeLenPrefixed`: what it appends to the builder.
unfoldable pub len_prefixed : Text → Text
len_prefixed s = format_uint (length s) ++ b':' ∷ s

-- tx|<len(from)>:<from>|<len(to)>:<to>|<amount>|<timestamp>|<pubkey>
unfoldable pub signing_bytes : Transaction → Text
signing_bytes t =
    codes "tx|"
    ++ (len_prefixed t.from
        ++ b'|'
          ∷ (len_prefixed t.to
              ++ b'|'
                ∷ (format_int t.amount ++ b'|' ∷ (format_int t.timestamp ++ b'|' ∷ t.pub_key))))

unfoldable pub canonical_bytes : Transaction → Text
canonical_bytes t = signing_bytes t ++ b'|' ∷ t.signature

-- `String`: "<from> -> <to> : <amount>"
unfoldable pub show_transaction : Transaction → Text
show_transaction t =
    let from = if is_coinbase t then codes "(coinbase)" else t.from in
    from ++ (codes " -> " ++ (t.to ++ (codes " : " ++ format_int t.amount)))
