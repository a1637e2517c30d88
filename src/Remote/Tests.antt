-- ===== src/Remote/Tests.antt =====
-- Trees and their digests.
use power_manage_sdk.Remote.Digest.{Entry, big_endian, canonical, sorted, sha256_tree, less}
use power_manage_sdk.Remote.Digest.Canonical.{IsWhole, sha256_tree-injective}
use power_manage_sdk.Prelude.{
  ◌≡◌, ◌≢◌, ◌⊎◌, refl, arith, some, List, [], ◌∷◌, ◌++◌, Bytes, codes, All, length,
}

abbrev file : Bytes → Bytes → Entry
file rel body = record { rel = rel; mode = 420; size = length body; body = some body }

abbrev tree : List Entry
tree = file (codes "b") (codes "xy") ∷ file (codes "a") [] ∷ []

tree_text :
    canonical (sorted tree)
    ≡ some (
        (0 ∷ 0 ∷ 0 ∷ 1 ∷ b'a' ∷ 0 ∷ 0 ∷ 1 ∷ 164 ∷ 0 ∷ 0 ∷ 0 ∷ 0 ∷ 0 ∷ 0 ∷ 0 ∷ 0 ∷ [])
        ++ (0 ∷ 0 ∷ 0 ∷ 1 ∷ b'b' ∷ 0 ∷ 0 ∷ 1 ∷ 164 ∷ 0 ∷ 0 ∷ 0 ∷ 0 ∷ 0 ∷ 0 ∷ 0 ∷ 2 ∷ codes "xy"))
unfolding canonical big_endian less
tree_text = refl

tree-IsWhole : All IsWhole tree
tree-IsWhole = (
  (omega arith, omega arith, omega arith, (codes "xy", refl, refl)),
  ((omega arith, omega arith, omega arith, ([], refl, refl)), tt),
)

abbrev flipped : List Entry
flipped = file (codes "a") [] ∷ file (codes "b") (codes "xy") ∷ []

flipped-IsWhole : All IsWhole flipped
flipped-IsWhole = (
  (omega arith, omega arith, omega arith, ([], refl, refl)),
  ((omega arith, omega arith, omega arith, (codes "xy", refl, refl)), tt),
)

abbrev tree_digest : Bytes
tree_digest =
    (0 ∷ 0 ∷ 0 ∷ 1 ∷ b'a' ∷ 0 ∷ 0 ∷ 1 ∷ 164 ∷ 0 ∷ 0 ∷ 0 ∷ 0 ∷ 0 ∷ 0 ∷ 0 ∷ 0 ∷ [])
    ++ (0 ∷ 0 ∷ 0 ∷ 1 ∷ b'b' ∷ 0 ∷ 0 ∷ 1 ∷ 164 ∷ 0 ∷ 0 ∷ 0 ∷ 0 ∷ 0 ∷ 0 ∷ 0 ∷ 2 ∷ codes "xy")

tree_hashed : sha256_tree (λ s. s) (some tree) ≡ some tree_digest
unfolding sha256_tree canonical big_endian less
tree_hashed = refl

flipped_hashed : sha256_tree (λ s. s) (some flipped) ≡ some tree_digest
unfolding sha256_tree canonical big_endian less
flipped_hashed = refl

sha256_tree-injective_example :
    (sorted tree ≡ sorted flipped) ⊎ ((a : Bytes) × (b : Bytes) × (a ≢ b) × (a ≡ b))
sha256_tree-injective_example =
    sha256_tree-injective (λ s. s) tree flipped tree_digest tree-IsWhole flipped-IsWhole tree_hashed
      flipped_hashed
