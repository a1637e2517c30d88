-- ===== src/Pkg/LocalPath.antt =====
-- A local package file stands where its path says: cleaning it climbs nowhere.
use power_manage_sdk.Paths.Clean.{slash, split, dot, dots, walk, is_abs, kept_back}
use power_manage_sdk.Pkg.{validate_local_package_path}
use power_manage_sdk.Prelude.{
  extended, reversed, ◌≡◌, refl, arith, ℕ, true, false, ◌||◌, List, [], ◌∷◌, Bytes, codes, ◌==◌,
  if◌then◌else◌, equal, has_prefix, contains, is_empty, All, ok, Bool-cases, inl, inr,
}

-- The segments that name something.
abbrev pub named : List Bytes → List Bytes
named [] = []
named (s ∷ ss) = if is_empty s || equal s dot then named ss else s ∷ named ss

abbrev first : List Bytes → Bytes
first [] = []
first (s ∷ ss) = s

abbrev IsStraight : Bytes → Type 0
IsStraight s = equal s dots ≡ false

first-extended : (c : ℕ) (ss : List Bytes) → first (extended c ss) ≡ c ∷ first ss
first-extended c [] = refl
first-extended c (s ∷ ss) = refl

-- The first segment of a path begins it.
first-has_prefix : (w p : Bytes) → equal (first (split p)) w ≡ true → has_prefix w p ≡ true
unfolding equal has_prefix
first-has_prefix [] p h = refl
first-has_prefix (a ∷ w) [] h = cc
first-has_prefix (a ∷ w) (c ∷ p) h = elim (Bool-cases (c == slash)) [
  | inl cut ↦ ground arith
  | inr inside ↦ ground (arith, first-extended c (split p), first-has_prefix w p)
]

extended-All :
    (c : ℕ) (ss : List Bytes)
    → equal (c ∷ first ss) dots ≡ false
    → All IsStraight ss
    → All IsStraight (extended c ss)
extended-All c [] h hs = (h, tt)
extended-All c (s ∷ ss) h (_, tl) = (h, tl)

head :
    (c : ℕ) (p : Bytes)
    → (c == slash) ≡ false
    → has_prefix dots (c ∷ p) ≡ false
    → equal (c ∷ first (split p)) dots ≡ false
head c p inside h = elim (Bool-cases (equal (c ∷ first (split p)) dots)) [
  | inl same ↦ ground (arith, first-has_prefix dots (c ∷ p), first-extended c (split p))
  | inr other ↦ other
]

straight : (p : Bytes) → contains dots p ≡ false → All IsStraight (split p)
unfolding contains
straight [] h = (unfold equal in refl, tt)
straight (c ∷ p) h = elim (Bool-cases (c == slash)) as (λ _. All IsStraight (split (c ∷ p))) [
  | inl cut ↦ rw cut (unfold equal in refl, straight p (ground arith))
  | inr inside ↦
      rw inside
        (extended-All c (split p) (head c p inside (ground arith)) (straight p (ground arith)))
]

walk_straight :
    (stack ss : List Bytes) → All IsStraight ss → walk true stack ss ≡ reversed (named ss) stack
walk_straight stack [] h = refl
walk_straight stack (s ∷ ss) (hd, tl) = elim (Bool-cases (is_empty s || equal s dot)) [
  | inl skip ↦ rw (skip) (walk_straight stack ss tl)
  | inr kept ↦ rw (kept) (rw hd (walk_straight (s ∷ stack) ss tl))
]

path-is_abs : (p : Bytes) → has_prefix (codes "/") p ≡ true → is_abs p ≡ true
unfolding has_prefix
path-is_abs [] h = cc
path-is_abs (c ∷ p) h = ground arith

path_checks :
    (p : Bytes)
    → validate_local_package_path p ≡ ok tt
    → (has_prefix (codes "/") p ≡ true) × (contains dots p ≡ false)
unfolding validate_local_package_path
path_checks p h = ground arith

-- An accepted path of a local package file is absolute, and cleaning it only leaves out its empty
-- and `.` segments: all others stay, in their order.
pub validate_local_package_path-kept_back :
    (p : Bytes)
    → validate_local_package_path p ≡ ok tt
    → (is_abs p ≡ true) × (kept_back p ≡ reversed (named (split p)) [])
validate_local_package_path-kept_back p h =
    let (rooted, plain) = path_checks p h in
    let located = path-is_abs p rooted in
    (located, rw located (walk_straight [] (split p) (straight p plain)))
