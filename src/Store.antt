-- ===== src/Store.antt =====
-- internal/store/store.go. The disk is a map from paths to contents; what the file system answers
-- is an argument, and JSON is a pair of functions of which a hypothesis says that they fit.
use toy_blockchain.Prelude.{
  ◌≡◌, ap, Bool, false, Option, none, some, List, [], ◌∷◌, ◌++◌, ⊤, Text, codes, text_eq,
  text_eq_iff, text_eq_refl, length, length-append, drop, arith, if◌then◌else◌, ℤ, pos, eq_ℤ,
  Result, ok, err, Bool-cases, inl, inr, ◌⊎◌,
}
use toy_blockchain.Go.Map.{Map, lookup, insert, erase, lookup-insert, lookup-erase}
use toy_blockchain.Ledger.Transaction.{Transaction}
use toy_blockchain.Block.Header.{Block, has_prefix}

abbrev pub version : ℤ
version = pos 1

pub record File : Type 0 where
  pub version : ℤ
  pub blocks : List Block
  pub pending : List Transaction

-- json.MarshalIndent and json.Unmarshal, on a chain file and on the labels and keys of a keystore.
pub record Json : Type 0 where
  pub encode : File → Text
  pub decode : Text → Option File
  pub encode_keys : Map Text → Text
  pub decode_keys : Text → Option (Map Text)

abbrev pub Disk : Type 0
Disk = Map Text

pub data StoreError : Type 0 where
  reading not_json creating writing replacing : StoreError
  wrong_version : ℤ → StoreError

abbrev pub byte_order_mark : Text
byte_order_mark = 0xEF ∷ 0xBB ∷ 0xBF ∷ []

-- bytes.TrimPrefix
unfoldable pub trim_prefix : Text → Text → Text
trim_prefix s prefix = if has_prefix s prefix then drop (length prefix) s else s

-- What the file system does to the calls of `Save`: whether each fails, and what a failed write
-- has left in the temporary file.
pub record Faults : Type 0 where
  pub mkdir : Bool
  pub write : Bool
  pub partial : Text
  pub rename : Bool

abbrev pub tmp_path : Text → Text
tmp_path path = path ++ codes ".tmp"

module _ (json : Json) where
  unfoldable pub decode_file : Text → Result StoreError (Option File)
  decode_file raw = elim (json.decode (trim_prefix raw byte_order_mark)) [
    | none ↦ err not_json
    | some file ↦
        if eq_ℤ file.version version then ok (some file) else err (wrong_version file.version)
  ]

  -- `ok none` is `found == false`. `unreadable` is an error of ReadFile other than a missing file.
  unfoldable pub load : Bool → Text → Disk → Result StoreError (Option File)
  load unreadable path disk = elim (lookup path disk) [
    | none ↦ ok none
    | some raw ↦ if unreadable then err reading else decode_file raw
  ]

  -- The contents that `Save` writes, with the newline at their end.
  abbrev pub contents : List Block → List Transaction → Text
  contents blocks pending =
      json.encode (record { version = version; blocks = blocks; pending = pending }) ++ b'\n' ∷ []

  unfoldable pub save :
      Faults → Text → List Block → List Transaction → Disk → Result StoreError ⊤ × Disk
  save faults path blocks pending disk =
      let raw = contents blocks pending in
      let tmp = tmp_path path in
      if faults.mkdir
      then (err creating, disk)
      else if faults.write
      then (err writing, insert tmp faults.partial disk)
      else if faults.rename
      then (err replacing, erase tmp (insert tmp raw disk))
      else (ok tt, insert path raw (erase tmp (insert tmp raw disk)))

  tmp_path_ne : (path : Text) → text_eq (tmp_path path) path ≡ false
  tmp_path_ne path = elim (Bool-cases (text_eq (tmp_path path) path)) [
    | inl e ↦ absurd (
        omega (
          arith,
          length-append path (codes ".tmp"),
          ap (λ (x : Text). length x) ((text_eq_iff (tmp_path path) path).0 e),
        ))
    | inr e ↦ e
  ]

  -- Whichever call of the file system fails, and whatever a failed write leaves behind, the chain
  -- file is either replaced as a whole, and Save returns nil, or it is as it was, and Save returns
  -- an error.
  pub save_atomic :
      (faults : Faults) (path : Text) (blocks : List Block) (pending : List Transaction)
      (disk : Disk)
      → let (r, disk') = save faults path blocks pending disk in
        ((r ≡ ok tt) × (lookup path disk' ≡ some (contents blocks pending)))
        ⊎ ((e : StoreError) × (r ≡ err e) × (lookup path disk' ≡ lookup path disk))
  unfolding save
  save_atomic faults path blocks pending disk =
      let raw = contents blocks pending in
      let tmp = tmp_path path in
      let other = tmp_path_ne path in
      elim (Bool-cases faults.mkdir) [
        | inl a ↦ inr (creating, ground arith, ground arith)
        | inr a ↦ elim (Bool-cases faults.write) [
          | inl b ↦ inr (
            writing,
            ground arith,
            ground (arith, other, lookup-insert tmp path faults.partial disk),
          )
          | inr b ↦ elim (Bool-cases faults.rename) [
            | inl d ↦ inr (
              replacing,
              ground arith,
              ground (
                arith,
                other,
                lookup-erase tmp path (insert tmp raw disk),
                lookup-insert tmp path raw disk,
              ),
            )
            | inr d ↦ inl (
              ground arith,
              ground (
                arith,
                text_eq_refl path,
                lookup-insert path path raw (erase tmp (insert tmp raw disk)),
              ),
            )
          ]
        ]
      ]

  trim_nothing : (s prefix : Text) → has_prefix s prefix ≡ false → trim_prefix s prefix ≡ s
  unfolding trim_prefix
  trim_nothing s prefix h = ground arith

  -- The encoder and the decoder fit on a file, and the encoding does not begin with a byte order mark.
  pub record Fits (blocks : List Block) (pending : List Transaction) : Type 0 where
    pub decoded :
        json.decode (contents blocks pending)
        ≡ some (record { version = version; blocks = blocks; pending = pending })
    pub no_mark : has_prefix (contents blocks pending) byte_order_mark ≡ false

  pub load-contents :
      (path : Text) (blocks : List Block) (pending : List Transaction) (disk : Disk)
      → lookup path disk ≡ some (contents blocks pending)
      → Fits blocks pending
      → load false path disk
        ≡ ok (some (record { version = version; blocks = blocks; pending = pending }))
  unfolding load decode_file
  load-contents path blocks pending disk there fits = ground (
    arith,
    there,
    trim_nothing (contents blocks pending) byte_order_mark fits.no_mark,
    fits.decoded,
  )
