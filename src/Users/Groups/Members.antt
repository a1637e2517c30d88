-- ===== src/Users/Groups/Members.antt =====
-- Two lists of members match when they hold the same names.
use power_manage_sdk.Users.Groups.{set, members_match}
use power_manage_sdk.Prelude.{
  suc, ◌≤◌, Bool, true, false, ◌||◌, ◌==◌, ◌≡◌, ◌↔◌, refl, sym, ap, ◌∙◌, arith, List, [], ◌∷◌,
  Bytes, equal, equal_iff, equal_refl, member, all, length, if◌then◌else◌, Bool-cases, inl, inr,
  and-eq-true, or-eq-true,
}

abbrev IsDistinct : List Bytes → Type 0
IsDistinct [] = Unit
IsDistinct (x ∷ xs) = (member x xs ≡ false) × IsDistinct xs

-- Every element of the first is in the second.
abbrev IsWithin : List Bytes → List Bytes → Type 0
IsWithin xs ys = (k : Bytes) → member k xs ≡ true → member k ys ≡ true

member-set : (k : Bytes) (xs : List Bytes) → member k (set xs) ≡ member k xs
unfolding member
member-set k [] = refl
member-set k (x ∷ xs) = elim (Bool-cases (member x (set xs))) [
  | inr fresh ↦ rw fresh (ap (λ b. equal x k || b) (member-set k xs))
  | inl seen ↦ elim (Bool-cases (equal x k)) [
    | inr other ↦ rw (seen, other) (member-set k xs)
    | inl same ↦
        let here = (equal_iff x k).0 same in
        let found : member k (set xs) ≡ true =
          ap (λ (y : Bytes). member y (set xs)) (sym here) ∙ seen in
        rw (seen, same) found
  ]
]

set-IsDistinct : (xs : List Bytes) → IsDistinct (set xs)
set-IsDistinct [] = tt
set-IsDistinct (x ∷ xs) = elim (Bool-cases (member x (set xs))) [
  | inl seen ↦ rw seen (set-IsDistinct xs)
  | inr fresh ↦ rw fresh (fresh, set-IsDistinct xs)
]

abbrev removed : Bytes → List Bytes → List Bytes
removed k [] = []
removed k (y ∷ ys) = let rest = removed k ys in if equal y k then rest else y ∷ rest

member-removed :
    (k j : Bytes) (ys : List Bytes)
    → equal k j ≡ false
    → member j ys ≡ true
    → member j (removed k ys) ≡ true
unfolding member
member-removed k j [] other h = h
member-removed k j (y ∷ ys) other h = elim (Bool-cases (equal y k)) [
  | inr kept ↦ rw kept (ground (arith, member-removed k j ys other))
  | inl gone ↦
      let same = (equal_iff y k).0 gone in
      let not_here : equal y j ≡ false = ap (λ (t : Bytes). equal t j) same ∙ other in
      rw gone (member-removed k j ys other (ground (arith, not_here)))
]

length-removed_absent :
    (k : Bytes) (ys : List Bytes) → member k ys ≡ false → length (removed k ys) ≡ length ys
unfolding member
length-removed_absent k [] h = refl
length-removed_absent k (y ∷ ys) h = ground (arith, length-removed_absent k ys)

length-removed :
    (k : Bytes) (ys : List Bytes)
    → IsDistinct ys
    → member k ys ≡ true
    → suc (length (removed k ys)) ≡ length ys
unfolding member
length-removed k [] d h = cc
length-removed k (y ∷ ys) (fresh, d) h = elim (Bool-cases (equal y k)) [
  | inr other ↦ ground (arith, length-removed k ys d)
  | inl here ↦
      let absent : member k ys ≡ false =
        ap (λ (t : Bytes). member t ys) (sym ((equal_iff y k).0 here)) ∙ fresh in
      rw here (omega (arith, length-removed_absent k ys absent))
]

absent_removed :
    (k j : Bytes) (ys : List Bytes) → member j ys ≡ false → member j (removed k ys) ≡ false
unfolding member
absent_removed k j [] h = refl
absent_removed k j (y ∷ ys) h = ground (arith, absent_removed k j ys)

removed-IsDistinct : (k : Bytes) (ys : List Bytes) → IsDistinct ys → IsDistinct (removed k ys)
removed-IsDistinct k [] d = tt
removed-IsDistinct k (y ∷ ys) (fresh, d) = elim (Bool-cases (equal y k)) [
  | inl gone ↦ rw gone (removed-IsDistinct k ys d)
  | inr kept ↦ rw kept (absent_removed k y ys fresh, removed-IsDistinct k ys d)
]

-- Without a name that is not in the first list, the second still has all of it.
IsWithin-removed :
    (k : Bytes) (xs ys : List Bytes)
    → member k xs ≡ false
    → IsWithin xs ys
    → IsWithin xs (removed k ys)
IsWithin-removed k xs ys absent within j h = elim (Bool-cases (equal k j)) [
  | inr other ↦ member-removed k j ys other (within j h)
  | inl same ↦
      let found : member k xs ≡ true =
        ap (λ (t : Bytes). member t xs) ((equal_iff k j).0 same) ∙ h in
      cc
]

-- Distinct names within a list are at most as many.
length-within :
    (xs ys : List Bytes) → IsDistinct xs → IsDistinct ys → IsWithin xs ys → length xs ≤ length ys
unfolding member
length-within [] ys dx dy within = omega arith
length-within (x ∷ xs) ys (fresh, dx) dy within =
    let here : member x ys ≡ true = within x (ground (arith, equal_refl x)) in
    let rest : IsWithin xs ys = λ k h. within k (ground arith) in
    omega (
      arith,
      length-removed x ys dy here,
      length-within xs (removed x ys) dx (removed-IsDistinct x ys dy)
          (IsWithin-removed x xs ys fresh rest),
    )

-- As many distinct names within a list are all of it.
IsWithin-whole :
    (xs ys : List Bytes)
    → IsDistinct xs
    → IsDistinct ys
    → length xs ≡ length ys
    → IsWithin xs ys
    → IsWithin ys xs
IsWithin-whole xs ys dx dy same within k h = elim (Bool-cases (member k xs)) [
  | inl found ↦ found
  | inr absent ↦
      let fewer =
        length-within xs (removed k ys) dx (removed-IsDistinct k ys dy)
          (IsWithin-removed k xs ys absent within) in
      ground (arith, fewer, length-removed k ys dy h)
]

all-IsWithin : (xs ys : List Bytes) → all (λ k. member k ys) xs ≡ true → IsWithin xs ys
unfolding member
all-IsWithin [] ys h k m = cc
all-IsWithin (x ∷ xs) ys h k m = elim (or-eq-true (equal x k) (member k xs) m) [
  | inr there ↦ all-IsWithin xs ys (ground arith) k there
  | inl here ↦
      let first : member x ys ≡ true = ground arith in
      ap (λ (t : Bytes). member t ys) (sym ((equal_iff x k).0 here)) ∙ first
]

IsWithin-all : (xs ys : List Bytes) → IsWithin xs ys → all (λ k. member k ys) xs ≡ true
unfolding member
IsWithin-all [] ys within = refl
IsWithin-all (x ∷ xs) ys within =
    let here : member x ys ≡ true = within x (ground (arith, equal_refl x)) in
    let rest = IsWithin-all xs ys (λ k h. within k (ground arith)) in ground (arith, here, rest)

iff_equal : (p q : Bool) → (p ≡ true → q ≡ true) → (q ≡ true → p ≡ true) → p ≡ q
iff_equal true q f g = sym (f refl)
iff_equal false true f g = g refl
iff_equal false false f g = refl

same_members :
    (a b : List Bytes)
    → length (set a) ≡ length (set b)
    → IsWithin (set a) (set b)
    → (k : Bytes) → member k a ≡ member k b
same_members a b size forth k =
    let back = IsWithin-whole (set a) (set b) (set-IsDistinct a) (set-IsDistinct b) size forth in
    sym (member-set k a)
    ∙ iff_equal (member k (set a)) (member k (set b)) (forth k) (back k)
    ∙ member-set k b

-- Two lists match exactly when the same names are in both, whatever their order and repetitions.
pub members_match_iff :
    (a b : List Bytes) → (members_match a b ≡ true) ↔ ((k : Bytes) → member k a ≡ member k b)
unfolding members_match
members_match_iff a b = (
  λ h.
      let (size, within) =
        and-eq-true (length (set a) == length (set b)) (all (λ k. member k (set b)) (set a)) h in
      same_members a b (ground arith) (all-IsWithin (set a) (set b) within),
  λ same.
      let forth : IsWithin (set a) (set b) =
        λ k h. member-set k b ∙ sym (same k) ∙ sym (member-set k a) ∙ h in
      let back : IsWithin (set b) (set a) =
        λ k h. member-set k a ∙ same k ∙ sym (member-set k b) ∙ h in
      ground (
        arith,
        IsWithin-all (set a) (set b) forth,
        length-within (set a) (set b) (set-IsDistinct a) (set-IsDistinct b) forth,
        length-within (set b) (set a) (set-IsDistinct b) (set-IsDistinct a) back,
      ),
)
