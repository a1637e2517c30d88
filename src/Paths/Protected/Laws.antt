-- ===== src/Paths/Protected/Laws.antt =====
-- The protected trees by the segments of a path, whatever way the path is written.
use power_manage_sdk.Paths.Clean.{
  slash, split, dot, dots, climb, walked, walk, joined, is_abs, kept_back, absolute, clean,
}
use power_manage_sdk.Paths.Protected.{
  is_at_or_under, protected_exact_paths, is_under_protected_prefix,
}
use power_manage_sdk.Prelude.{
  extended, reversed, ◌≡◌, refl, ap, ◌∙◌, arith, ℕ, Bool, true, false, not, ◌&&◌, ◌||◌, Option,
  List, [], ◌∷◌, ◌++◌, Bytes, codes, ◌==◌, equal, member, has_prefix, any, All, is_empty,
  append_assoc, Bool-cases, inl, inr, map,
}

-- The cleaned path, segment by segment.
abbrev pub segments : Bytes → List Bytes
segments p = reversed (kept_back p) []

abbrev pub is_prefix : List Bytes → List Bytes → Bool
is_prefix [] ss = true
is_prefix (r ∷ rs) [] = false
is_prefix (r ∷ rs) (s ∷ ss) = equal r s && is_prefix rs ss

abbrev pub has_slash : Bytes → Bool
has_slash s = any (λ c. c == slash) s

abbrev pub IsWord : Bytes → Type 0
IsWord s = has_slash s ≡ false

-- Every segment with a slash behind it.
abbrev pub spelled : List Bytes → Bytes
spelled [] = []
spelled (s ∷ ss) = s ++ (slash ∷ spelled ss)

under-has_prefix :
    (p root : Bytes) → is_at_or_under p root ≡ has_prefix (root ++ (slash ∷ [])) (p ++ (slash ∷ []))
unfolding equal has_prefix
under-has_prefix [] [] = refl
under-has_prefix (c ∷ p) [] = ground arith
under-has_prefix [] (r ∷ []) = ground arith
under-has_prefix [] (r ∷ (r2 ∷ root)) = ground arith
under-has_prefix (c ∷ p) (r ∷ root) = ground (arith, under-has_prefix p root)

has_prefix-word :
    (w s x y : Bytes)
    → IsWord w
    → IsWord s
    → has_prefix (w ++ (slash ∷ x)) (s ++ (slash ∷ y)) ≡ (equal w s && has_prefix x y)
unfolding equal has_prefix
has_prefix-word [] [] x y hw hs = ground arith
has_prefix-word [] (c ∷ s) x y hw hs = ground arith
has_prefix-word (b ∷ w) [] x y hw hs = ground arith
has_prefix-word (b ∷ w) (c ∷ s) x y hw hs =
    ground (arith, has_prefix-word w s x y (ground arith) (ground arith))

pub has_prefix-spelled :
    (rs ss : List Bytes)
    → All IsWord rs
    → All IsWord ss
    → has_prefix (spelled rs) (spelled ss) ≡ is_prefix rs ss
unfolding has_prefix
has_prefix-spelled [] ss hr hs = refl
has_prefix-spelled ([] ∷ rs) [] hr hs = refl
has_prefix-spelled ((c ∷ r) ∷ rs) [] hr hs = refl
has_prefix-spelled (r ∷ rs) (s ∷ ss) (hr, hrs) (hs, hss) =
    ground
      (arith, has_prefix-word r s (spelled rs) (spelled ss) hr hs, has_prefix-spelled rs ss hrs hss)

joined-spelled : (s : Bytes) (ss : List Bytes) → joined (s ∷ ss) ++ (slash ∷ []) ≡ spelled (s ∷ ss)
joined-spelled s [] = refl
joined-spelled s (t ∷ ss) =
    append_assoc s (slash ∷ joined (t ∷ ss)) (slash ∷ [])
    ∙ ap (λ (r : Bytes). s ++ (slash ∷ r)) (joined-spelled t ss)

extended-All :
    (c : ℕ) (ss : List Bytes) → (c == slash) ≡ false → All IsWord ss → All IsWord (extended c ss)
extended-All c [] h hs = (ground arith, tt)
extended-All c (s ∷ ss) h (hd, tl) = (ground arith, tl)

split-All : (p : Bytes) → All IsWord (split p)
split-All [] = (refl, tt)
split-All (c ∷ p) = elim (Bool-cases (c == slash)) as (λ _. All IsWord (split (c ∷ p))) [
  | inl cut ↦ rw cut (refl, split-All p)
  | inr inside ↦ rw inside (extended-All c (split p) inside (split-All p))
]

climb-All :
    (P : Bytes → Type 0) (rooted : Bool) (stack : List Bytes)
    → P dots
    → All P stack
    → All P (climb rooted stack)
climb-All P true [] hd hs = tt
climb-All P false [] hd hs = (hd, tt)
climb-All P rooted (s ∷ ss) hd (h, t) =
    elim (Bool-cases (equal s dots)) as (λ _. All P (climb rooted (s ∷ ss))) [
      | inl up ↦ rw up (hd, (h, t))
      | inr name ↦ rw name t
    ]

walked-All :
    (P : Bytes → Type 0) (rooted : Bool) (stack : List Bytes) (s : Bytes)
    → P dots
    → All P stack
    → P s
    → All P (walked rooted stack s)
walked-All P rooted stack s hd hs h =
    elim (Bool-cases (is_empty s || equal s dot)) as (λ _. All P (walked rooted stack s)) [
      | inl skip ↦ rw skip hs
      | inr other ↦ elim (Bool-cases (equal s dots)) as (λ _. All P (walked rooted stack s)) [
        | inl up ↦ rw (other, up) (climb-All P rooted stack hd hs)
        | inr name ↦ rw (other, name) (h, hs)
      ]
    ]

-- A predicate that the segments have and `..` has is kept on the stack.
pub walk-All :
    (P : Bytes → Type 0) (rooted : Bool) (stack ss : List Bytes)
    → P dots
    → All P stack
    → All P ss
    → All P (walk rooted stack ss)
walk-All P rooted stack [] hd hs h = hs
walk-All P rooted stack (s ∷ ss) hd hs (h, t) =
    walk-All P rooted (walked rooted stack s) ss hd (walked-All P rooted stack s hd hs h) t

reversed-All :
    (P : Bytes → Type 0) (ss acc : List Bytes) → All P ss → All P acc → All P (reversed ss acc)
reversed-All P [] acc hs h = h
reversed-All P (s ∷ ss) acc (hd, tl) h = reversed-All P ss (s ∷ acc) tl (hd, h)

pub segments-All : (p : Bytes) → All IsWord (segments p)
segments-All p =
    reversed-All IsWord (kept_back p) []
      (walk-All IsWord (is_abs p) [] (split p) refl tt (split-All p)) tt

-- The protected trees, as segments.
abbrev pub protected_trees : List (List Bytes)
protected_trees =
    (codes "etc" ∷ [])
    ∷ (codes "boot" ∷ [])
    ∷ (codes "usr" ∷ [])
    ∷ (codes "home" ∷ [])
    ∷ (codes "root" ∷ [])
    ∷ (codes "var" ∷ codes "lib" ∷ [])
    ∷ (codes "bin" ∷ [])
    ∷ (codes "sbin" ∷ [])
    ∷ (codes "lib" ∷ [])
    ∷ (codes "lib64" ∷ [])
    ∷ (codes "lib32" ∷ [])
    ∷ (codes "libx32" ∷ [])
    ∷ (codes "proc" ∷ [])
    ∷ (codes "sys" ∷ [])
    ∷ (codes "dev" ∷ [])
    ∷ (codes "run" ∷ [])
    ∷ []

pub at_or_under-is_prefix :
    (r : Bytes) (rs ss : List Bytes)
    → is_empty r ≡ false
    → All IsWord (r ∷ rs)
    → All IsWord ss
    → is_at_or_under (absolute ss) (absolute (r ∷ rs)) ≡ is_prefix (r ∷ rs) ss
unfolding has_prefix
at_or_under-is_prefix [] rs ss full hr hs = cc
at_or_under-is_prefix (c ∷ r) rs [] full hr hs =
    under-has_prefix (absolute []) (absolute ((c ∷ r) ∷ rs))
    ∙ ground (arith, joined-spelled (c ∷ r) rs)
at_or_under-is_prefix r rs (s ∷ ss) full hr hs =
    under-has_prefix (absolute (s ∷ ss)) (absolute (r ∷ rs))
    ∙ rw (joined-spelled r rs)
        (rw (joined-spelled s ss) (has_prefix-spelled (r ∷ rs) (s ∷ ss) hr hs))

abbrev pub names_a_tree : List Bytes → Bool
names_a_tree [] = false
names_a_tree (r ∷ rs) = not (is_empty r)

abbrev pub IsTree : List Bytes → Type 0
IsTree t = (names_a_tree t ≡ true) × All IsWord t

any_under :
    (ts : List (List Bytes)) (ss : List Bytes)
    → All IsTree ts
    → All IsWord ss
    → any (is_at_or_under (absolute ss)) (map absolute ts) ≡ any (λ t. is_prefix t ss) ts
any_under [] ss ht hs = refl
any_under ([] ∷ ts) ss ((named, _), ht) hs = cc
any_under ((r ∷ rs) ∷ ts) ss ((named, words), ht) hs =
    ground (arith, at_or_under-is_prefix r rs ss (ground arith) words hs, any_under ts ss ht hs)

protected_trees-IsTree : All IsTree protected_trees
protected_trees-IsTree = ground arith

pub clean-segments : (p : Bytes) → is_abs p ≡ true → clean p ≡ absolute (segments p)
unfolding clean
clean-segments p h = rw h refl

-- An absolute path, however it is written, is under a protected prefix exactly when what is left
-- of it without `.`, `..` and empty segments is `/` or `/var` or begins with the segments of a
-- protected tree.
pub is_under_protected_prefix-segments :
    (cwd : Option Bytes) (p : Bytes)
    → is_abs p ≡ true
    → is_under_protected_prefix cwd p ≡ (
        member (absolute (segments p)) protected_exact_paths
        || any (λ t. is_prefix t (segments p)) protected_trees)
unfolding is_under_protected_prefix
is_under_protected_prefix-segments cwd p h = rw (clean-segments p h) (
    ap (λ (b : Bool). member (absolute (segments p)) protected_exact_paths || b)
      (any_under protected_trees (segments p) protected_trees-IsTree (segments-All p)))
