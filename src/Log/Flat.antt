-- ===== src/Log/Flat.antt =====
-- Patterns without groups, and the number of lines.
use power_manage_sdk.Log.Guard.{
  Reason, too_many, Group, count_from, step, walk, is_pathological_grep_pattern,
}
use power_manage_sdk.Log.Sources.{capped_lines, max_lines}
use power_manage_sdk.Prelude.{
  ℕ, zero, suc, ◌≤◌, Bool, true, false, ◌==◌, ◌≡◌, refl, arith, ◌⊎◌, inl, inr, none, some, List, [],
  ◌∷◌, Bytes, any, ltb, if◌then◌else◌, ℤ, pos, negsuc,
}

abbrev stays_flat : Reason ⊎ (ℕ × List Group) → Bool
stays_flat (inl _) = false
stays_flat (inr (_, [])) = true
stays_flat (inr (_, _ ∷ _)) = false

step-stays_flat : (c : ℕ) (s : Bytes) → (c == b'(') ≡ false → stays_flat (step [] c s) ≡ true
step-stays_flat c s h = ground arith

after_step :
    (s : Bytes) (r : Reason ⊎ (ℕ × List Group))
    → stays_flat r ≡ true
    → ((skip : ℕ) → walk skip [] s ≡ none)
    → (elim r [ inl why ↦ some why | inr (skip, open_groups) ↦ walk skip open_groups s ]) ≡ none
after_step s (inl why) flat rest = cc
after_step s (inr (skip, [])) flat rest = rest skip
after_step s (inr (skip, g ∷ gs)) flat rest = cc

walk-flat : (p : Bytes) (skip : ℕ) → any (λ c. c == b'(') p ≡ false → walk skip [] p ≡ none
walk-flat [] skip h = refl
walk-flat (c ∷ p) (suc skip) h = walk-flat p skip (ground arith)
walk-flat (c ∷ p) zero h =
    after_step p (step [] c p) (step-stays_flat c p (ground arith))
      (λ skip. walk-flat p skip (ground arith))

-- A pattern with no parenthesis is refused for its number of quantifiers only, as the guard
-- counts them.
pub is_pathological_grep_pattern_flat :
    (p : Bytes)
    → any (λ c. c == b'(') p ≡ false
    → is_pathological_grep_pattern p ≡ (if ltb 5 (count_from 0 p) then some too_many else none)
unfolding is_pathological_grep_pattern
is_pathological_grep_pattern_flat p h = rw (walk-flat p 0 h) refl

-- A query asks for at least one line and for no more than the cap, and gets what it asks for
-- within those bounds.
pub capped_lines-bounds :
    (n : ℤ)
    → (1 ≤ capped_lines n)
      × (capped_lines n ≤ max_lines)
      × (capped_lines (pos (capped_lines n)) ≡ capped_lines n)
unfolding capped_lines
capped_lines-bounds (negsuc n) = (omega arith, omega arith, refl)
capped_lines-bounds (pos n) = (ground arith, ground arith, ground arith)
