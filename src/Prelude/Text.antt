-- ===== src/Prelude/Text.antt =====
-- Go strings as byte lists, with the functions of package strings that the source calls.
use Prim.Native.Char.{code}
use Prim.Native.Nat.{ℕ, zero, suc, ◌+◌, ◌-◌, ◌<◌}
use Prim.Native.String.{String}
use mathlib.Core.Path.{◌≡◌, refl, sym, ap, ◌∙◌}
use mathlib.Core.Logic.{◌↔◌, inl, inr}
use mathlib.Core.Bool.{Bool, true, false, ◌&&◌, ◌||◌}
use mathlib.Core.Option.{Option, none, some}
use mathlib.Core.List.{List, [], ◌∷◌, ◌++◌, map}
use native.Mathlib.Omega.{arith}
use power_manage_sdk.Prelude.Tests.{leb, or-eq-true, Bool-cases, ◌==◌, if◌then◌else◌}
use power_manage_sdk.Prelude.Lists.{
  length, get_or, reversed, any, all, reversed_acc, reversed-append, all-append,
}

abbrev pub Bytes : Type 0
Bytes = List ℕ

-- A literal of the source; all of them are ASCII.
abbrev pub codes : String → Bytes
codes String.[] = []
codes (String.◌∷◌ c s) = code c ∷ codes s

-- `a == b`.
unfoldable pub equal : Bytes → Bytes → Bool
equal [] [] = true
equal (x ∷ xs) (y ∷ ys) = x == y && equal xs ys
equal _ _ = false

pub equal_iff : (s t : Bytes) → (equal s t ≡ true) ↔ (s ≡ t)
unfolding equal
equal_iff [] [] = ground arith
equal_iff [] (_ ∷ _) = ground arith
equal_iff (_ ∷ _) [] = ground arith
equal_iff (c ∷ s) (d ∷ t) = ground (equal_iff s t, arith)

pub equal_refl : (a : Bytes) → equal a a ≡ true
equal_refl a = (equal_iff a a).1 refl

pub equal_comm : (a b : Bytes) → equal a b ≡ equal b a
unfolding equal
equal_comm (x ∷ a) (y ∷ b) = ground (arith, equal_comm a b)
equal_comm [] [] = refl
equal_comm [] (y ∷ b) = refl
equal_comm (x ∷ a) [] = refl

-- `slices.Contains`, or a key of a set held as a list.
unfoldable pub member : Bytes → List Bytes → Bool
unfolding equal
member s [] = false
member s (x ∷ xs) = equal x s || member s xs

pub member-get_or : (i : ℕ) (xs : List Bytes) → i < length xs → member (get_or xs i []) xs ≡ true
unfolding member
member-get_or i [] h = elim h [ ]
member-get_or zero (x ∷ xs) h = ground (arith, equal_refl x)
member-get_or (suc i) (x ∷ xs) h = ground (arith, member-get_or i xs (omega arith))

-- A member stands at some index.
pub index_of :
    (s : Bytes) (xs : List Bytes)
    → member s xs ≡ true
    → (i : ℕ) × (i < length xs) × (s ≡ get_or xs i [])
unfolding member
index_of s [] h = cc
index_of s (x ∷ xs) h = elim (or-eq-true (equal x s) (member s xs) h) [
  | inl here ↦ (0, omega arith, sym ((equal_iff x s).0 here))
  | inr there ↦ let (i, below, same) = index_of s xs there in (suc i, omega (arith, below), same)
]

abbrev pub is_empty : Bytes → Bool
is_empty [] = true
is_empty (_ ∷ _) = false

pub is_empty-eq-true : (s : Bytes) → is_empty s ≡ true → s ≡ []
is_empty-eq-true [] h = refl
is_empty-eq-true (c ∷ s) h = cc

-- `strings.HasPrefix(s, p)`, the prefix first.
unfoldable pub has_prefix : Bytes → Bytes → Bool
has_prefix [] s = true
has_prefix (c ∷ p) [] = false
has_prefix (c ∷ p) (d ∷ s) = c == d && has_prefix p s

pub has_prefix→append : (p s : Bytes) → has_prefix p s ≡ true → (r : Bytes) × (s ≡ p ++ r)
unfolding has_prefix
has_prefix→append [] s h = (s, refl)
has_prefix→append (c ∷ p) [] h = cc
has_prefix→append (c ∷ p) (d ∷ s) h =
    let (r, e) = has_prefix→append p s (ground arith) in (r, ground arith)

pub has_prefix-append : (p r : Bytes) → has_prefix p (p ++ r) ≡ true
unfolding has_prefix
has_prefix-append [] r = refl
has_prefix-append (c ∷ p) r = ground (arith, has_prefix-append p r)

-- `strings.Contains(s, t)`, the part first.
unfoldable pub contains : Bytes → Bytes → Bool
unfolding has_prefix
contains t [] = is_empty t
contains t (c ∷ s) = has_prefix t (c ∷ s) || contains t s

abbrev upper_byte : ℕ → ℕ
upper_byte c = if leb b'a' c && leb c b'z' then c - 32 else c

-- `strings.ToUpper` on ASCII.
abbrev pub to_upper : Bytes → Bytes
to_upper = map upper_byte

abbrev lower_byte : ℕ → ℕ
lower_byte c = if leb b'A' c && leb c b'Z' then c + 32 else c

-- `strings.ToLower` on ASCII.
abbrev pub to_lower : Bytes → Bytes
to_lower = map lower_byte

abbrev pub extended : ℕ → List Bytes → List Bytes
extended c [] = (c ∷ []) ∷ []
extended c (s ∷ ss) = (c ∷ s) ∷ ss

-- `strings.Split(s, sep)` for a separator of one byte, the separator first.
abbrev pub split_on : ℕ → Bytes → List Bytes
split_on sep [] = [] ∷ []
split_on sep (c ∷ s) = if c == sep then [] ∷ split_on sep s else extended c (split_on sep s)

abbrev pub is_space : ℕ → Bool
is_space c = c == 32 || leb 9 c && leb c 13

abbrev pub trim_left : Bytes → Bytes
trim_left [] = []
trim_left (c ∷ s) = let rest = trim_left s in if is_space c then rest else c ∷ s

-- `strings.TrimSpace` on ASCII.
unfoldable pub trim_space : Bytes → Bytes
trim_space s = reversed (trim_left (reversed (trim_left s) [])) []

abbrev pub words : List Bytes → List Bytes
words [] = []
words ([] ∷ ss) = words ss
words ((c ∷ s) ∷ ss) = (c ∷ s) ∷ words ss

abbrev pub split_fields : Bytes → List Bytes
split_fields [] = [] ∷ []
split_fields (c ∷ s) = if is_space c then [] ∷ split_fields s else extended c (split_fields s)

-- `strings.Fields` on ASCII.
unfoldable pub fields : Bytes → List Bytes
fields s = words (split_fields s)

abbrev pub cut_more : ℕ → Option (Bytes × Bytes) → Option (Bytes × Bytes)
cut_more c none = none
cut_more c (some (before, after)) = some (c ∷ before, after)

-- What stands before the first such byte and behind it, the byte first.
abbrev pub cut_at : ℕ → Bytes → Option (Bytes × Bytes)
cut_at sep [] = none
cut_at sep (c ∷ s) = if c == sep then some ([], s) else cut_more c (cut_at sep s)

-- `strings.TrimLeft(s, cutset)`, the set first.
abbrev pub trim_left_of : Bytes → Bytes → Bytes
trim_left_of set [] = []
trim_left_of set (c ∷ s) =
    let rest = trim_left_of set s in if any (λ d. d == c) set then rest else c ∷ s

-- `strings.TrimRight(s, cutset)`, the set first.
abbrev pub trim_right_of : Bytes → Bytes → Bytes
trim_right_of set s = reversed (trim_left_of set (reversed s [])) []

trim_left_none : (s : Bytes) → any is_space s ≡ false → trim_left s ≡ s
trim_left_none [] h = refl
trim_left_none (c ∷ s) h = ground arith

any-reversed : (p : ℕ → Bool) (s acc : Bytes) → any p (reversed s acc) ≡ (any p s || any p acc)
any-reversed p [] acc = refl
any-reversed p (c ∷ s) acc = ground (arith, any-reversed p s (c ∷ acc))

pub reversed_twice : (s acc : Bytes) → reversed (reversed s acc) [] ≡ reversed acc s
reversed_twice [] acc = refl
reversed_twice (c ∷ s) acc = reversed_twice s (c ∷ acc)

-- A text without white space is not trimmed.
pub trim_space_none : (s : Bytes) → any is_space s ≡ false → trim_space s ≡ s
unfolding trim_space
trim_space_none s h =
    let backwards : any is_space (reversed s []) ≡ false =
      ground (arith, any-reversed is_space s []) in
    rw (trim_left_none s h, trim_left_none (reversed s []) backwards) (reversed_twice s [])

trim_left_ends :
    (xs : Bytes) (c : ℕ)
    → is_space c ≡ false
    → (ys : Bytes) × (trim_left (xs ++ (c ∷ [])) ≡ ys ++ (c ∷ []))
trim_left_ends [] c h = ([], rw h refl)
trim_left_ends (x ∷ xs) c h = elim (Bool-cases (is_space x)) [
  | inl skip ↦ let (ys, e) = trim_left_ends xs c h in (ys, rw skip e)
  | inr kept ↦ (x ∷ xs, rw kept refl)
]

-- A text that begins with no white space keeps its first byte.
pub trim_space_starts :
    (c : ℕ) (s : Bytes) → is_space c ≡ false → (t : Bytes) × (trim_space (c ∷ s) ≡ c ∷ t)
unfolding trim_space
trim_space_starts c s h =
    let (ys, e) = trim_left_ends (reversed s []) c h in
    (reversed ys [], rw (h, reversed_acc s (c ∷ []), e) (reversed-append ys (c ∷ []) []))

pub split_on-append :
    (sep : ℕ) (s t : Bytes)
    → any (λ c. c == sep) s ≡ false
    → split_on sep (s ++ (sep ∷ t)) ≡ s ∷ split_on sep t
split_on-append sep [] t h = ground arith
split_on-append sep (c ∷ s) t h = ground (arith, split_on-append sep s t)

pub split_on_whole : (sep : ℕ) (s : Bytes) → any (λ c. c == sep) s ≡ false → split_on sep s ≡ s ∷ []
split_on_whole sep [] h = refl
split_on_whole sep (c ∷ s) h = ground (arith, split_on_whole sep s)

pub cut_at-append :
    (sep : ℕ) (s t : Bytes)
    → any (λ c. c == sep) s ≡ false
    → cut_at sep (s ++ (sep ∷ t)) ≡ some (s, t)
cut_at-append sep [] t h = ground arith
cut_at-append sep (c ∷ s) t h = ground (arith, cut_at-append sep s t)

-- A regular expression `^[first][class]{0,limit}$`.
unfoldable pub matches_class : (first class : ℕ → Bool) (limit : ℕ) → Bytes → Bool
matches_class first class limit [] = false
matches_class first class limit (c ∷ s) = first c && (all class s && leb (length s) limit)

-- What the first byte and the rest may be.
pub matches_class-all :
    (first class : ℕ → Bool) (limit : ℕ) (s : Bytes)
    → ((c : ℕ) → first c ≡ true → class c ≡ true)
    → matches_class first class limit s ≡ true
    → all class s ≡ true
unfolding matches_class
matches_class-all first class limit [] within h = refl
matches_class-all first class limit (c ∷ s) within h = ground (arith, within c)

-- `strings.CutPrefix(s, p)`, the prefix first.
abbrev pub cut_prefix : Bytes → Bytes → Option Bytes
cut_prefix [] s = some s
cut_prefix (c ∷ p) [] = none
cut_prefix (c ∷ p) (d ∷ s) = if c == d then cut_prefix p s else none

pub cut_prefix-append : (p s : Bytes) → cut_prefix p (p ++ s) ≡ some s
cut_prefix-append [] s = refl
cut_prefix-append (c ∷ p) s = ground (arith, cut_prefix-append p s)

pub cut_prefix-eq-some : (p s r : Bytes) → cut_prefix p s ≡ some r → s ≡ p ++ r
cut_prefix-eq-some [] s r h = cc
cut_prefix-eq-some (c ∷ p) [] r h = cc
cut_prefix-eq-some (c ∷ p) (d ∷ s) r h = ground (arith, cut_prefix-eq-some p s r)

-- `strings.Join(ss, sep)`, the separator first.
abbrev pub join_with : Bytes → List Bytes → Bytes
join_with sep [] = []
join_with sep (s ∷ []) = s
join_with sep (s ∷ (t ∷ ss)) = s ++ (sep ++ join_with sep (t ∷ ss))

-- What a separator of one byte joined, it splits.
pub split_on-join_with :
    (sep : ℕ) (s : Bytes) (ss : List Bytes)
    → any (λ t. any (λ c. c == sep) t) (s ∷ ss) ≡ false
    → split_on sep (join_with (sep ∷ []) (s ∷ ss)) ≡ s ∷ ss
split_on-join_with sep s [] h = split_on_whole sep s (ground arith)
split_on-join_with sep s (t ∷ ss) h =
    split_on-append sep s (join_with (sep ∷ []) (t ∷ ss)) (ground arith)
    ∙ ap (◌∷◌ s) (split_on-join_with sep t ss (ground arith))

-- A byte outside a class stands in no text over the class.
pub all-lacks :
    (class : ℕ → Bool) (d : ℕ) (s : Bytes)
    → class d ≡ false
    → all class s ≡ true
    → any (λ c. c == d) s ≡ false
all-lacks class d [] out h = refl
all-lacks class d (c ∷ s) out h = elim (Bool-cases (c == d)) [
  | inl same ↦ let equals : c ≡ d = ground arith in ground arith
  | inr other ↦ ground (arith, all-lacks class d s)
]

pub all-join_with :
    (class : ℕ → Bool) (sep : Bytes) (ss : List Bytes)
    → all class sep ≡ true
    → all (all class) ss ≡ true
    → all class (join_with sep ss) ≡ true
all-join_with class sep [] s h = refl
all-join_with class sep (t ∷ []) s h = ground arith
all-join_with class sep (t ∷ (u ∷ ss)) s h = ground (
  arith,
  all-append class t (sep ++ join_with sep (u ∷ ss)),
  all-append class sep (join_with sep (u ∷ ss)),
  all-join_with class sep (u ∷ ss),
)

-- What lacks a byte as a whole lacks it in each part.
pub all-lacks_each :
    (class : ℕ → Bool) (d : ℕ) (ss : List Bytes)
    → class d ≡ false
    → all (all class) ss ≡ true
    → any (λ t. any (λ c. c == d) t) ss ≡ false
all-lacks_each class d [] out h = refl
all-lacks_each class d (s ∷ ss) out h =
    ground (arith, all-lacks class d s, all-lacks_each class d ss)
