-- ===== src/Remote/Digest.antt =====
-- sys/remote/digest.go: the digest of a tree. The walk, the reading of files and SHA-256 are
-- arguments.
pub mod Canonical
use power_manage_sdk.Prelude.{
  ℕ, zero, suc, ◌/◌, ◌%◌, Bool, true, false, Option, none, some, List, [], ◌∷◌, ◌++◌, Bytes, length,
  ◌==◌, ltb, if◌then◌else◌, Result, ok, err,
}

-- A regular file of the tree: its path under the root, its permissions, its size when it was
-- listed, and its content, if it can be read.
pub record Entry : Type 0 where
  pub rel : Bytes
  pub mode : ℕ
  pub size : ℕ
  pub body : Option Bytes

-- `binary.BigEndian.AppendUint32` and its kin: that many bytes, the highest first.
unfoldable pub big_endian : ℕ → ℕ → Bytes
big_endian zero n = []
big_endian (suc width) n = big_endian width (n / 256) ++ (n % 256 ∷ [])

-- `strings.Compare(a, b) < 0`.
unfoldable pub less : Bytes → Bytes → Bool
less a [] = false
less [] (d ∷ b) = true
less (c ∷ a) (d ∷ b) = let rest = less a b in if c == d then rest else ltb c d

abbrev pub insert : Entry → List Entry → List Entry
insert e [] = e ∷ []
insert e (f ∷ fs) = let rest = insert e fs in if less f.rel e.rel then f ∷ rest else e ∷ (f ∷ fs)

-- `sort.Slice` by path; paths are distinct.
abbrev pub sorted : List Entry → List Entry
sorted [] = []
sorted (e ∷ es) = insert e (sorted es)

abbrev pub header : Entry → Bytes
header e = big_endian 4 (length e.rel) ++ (e.rel ++ (big_endian 4 e.mode ++ big_endian 8 e.size))

-- An empty file is not opened.
abbrev pub content : Entry → Option Bytes
content e = if e.size == 0 then some [] else e.body

abbrev pub both : Option Bytes → Option Bytes → Option Bytes
both (some s) (some t) = some (s ++ t)
both _ _ = none

abbrev pub after_header : Bytes → Option Bytes → Option Bytes
after_header front none = none
after_header front (some s) = some (front ++ s)

-- What is written into the hash.
unfoldable pub canonical : List Entry → Option Bytes
canonical [] = some []
canonical (e ∷ es) = both (after_header (header e) (content e)) (canonical es)

abbrev pub hashed : (Bytes → Bytes) → Option Bytes → Option Bytes
hashed hex_hash none = none
hashed hex_hash (some s) = some (hex_hash s)

-- `sha256Tree`: `none` is an error of the walk or of a file.
unfoldable pub sha256_tree : (Bytes → Bytes) → Option (List Entry) → Option Bytes
sha256_tree hex_hash none = none
sha256_tree hex_hash (some files) = hashed hex_hash (canonical (sorted files))
