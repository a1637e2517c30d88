-- ===== src/Log/Groups.antt =====
-- The shape that the guard exists for: a group under an unbounded quantifier, with another in it.
use power_manage_sdk.Log.Guard.{
  Reason, too_many, nested_quantifier, Group, close, closed, propagate, refused_or, count_from,
  step, walk, is_pathological_grep_pattern,
}
use power_manage_sdk.Prelude.{
  ℕ, zero, suc, Bool, true, false, not, ◌&&◌, ◌||◌, ◌==◌, ◌≡◌, refl, ap, ◌∙◌, arith, ◌⊎◌, inl, inr,
  Option, none, some, List, [], ◌∷◌, ◌++◌, Bytes, all, any, ltb, Bool-cases,
}

abbrev pub is_repeat : ℕ → Bool
is_repeat c = c == b'*' || c == b'+'

-- Neither an escape nor a brace.
abbrev pub is_simple : ℕ → Bool
is_simple c = not (c == 92) && not (c == b'{')

-- Nor a parenthesis.
abbrev pub is_inner : ℕ → Bool
is_inner c = is_simple c && not (c == b'(') && not (c == b')')

abbrev skips_none : Reason ⊎ (ℕ × List Group) → Bool
skips_none (inl _) = true
skips_none (inr (zero, _)) = true
skips_none (inr (suc _, _)) = false

refused_or-skips_none :
    (why : Option Reason) (stack : List Group) → skips_none (refused_or why stack) ≡ true
refused_or-skips_none none stack = refl
refused_or-skips_none (some why) stack = refl

close-skips_none : (stack : List Group) (s : Bytes) → skips_none (close stack s) ≡ true
close-skips_none [] s = refl
close-skips_none (top ∷ stack) s = refused_or-skips_none (closed top s) (propagate top stack)

step-skips_none :
    (stack : List Group) (c : ℕ) (s : Bytes)
    → is_simple c ≡ true
    → skips_none (step stack c s) ≡ true
step-skips_none stack c s h = ground (arith, close-skips_none stack s)

abbrev onward : Bytes → Reason ⊎ (ℕ × List Group) → Option Reason
onward s r = elim r [ inl why ↦ some why | inr (skip, open_groups) ↦ walk skip open_groups s ]

-- A walk that refuses on its way, or comes to the rest.
abbrev Comes : Option Reason → Bytes → Type 0
Comes found rest =
    ((why : Reason) × (found ≡ some why))
    ⊎ ((open_groups : List Group) × (found ≡ walk 0 open_groups rest))

onward-Comes :
    (s rest : Bytes) (r : Reason ⊎ (ℕ × List Group))
    → skips_none r ≡ true
    → ((open_groups : List Group) → Comes (walk 0 open_groups s) rest)
    → Comes (onward s r) rest
onward-Comes s rest (inl why) h later = inl (why, refl)
onward-Comes s rest (inr (zero, open_groups)) h later = later open_groups
onward-Comes s rest (inr (suc n, open_groups)) h later = cc

walk-Comes :
    (before : Bytes) (stack : List Group) (rest : Bytes)
    → all is_simple before ≡ true
    → Comes (walk 0 stack (before ++ rest)) rest
walk-Comes [] stack rest h = inr (stack, refl)
walk-Comes (c ∷ before) stack rest h =
    onward-Comes (before ++ rest) rest (step stack c (before ++ rest))
      (step-skips_none stack c (before ++ rest) (ground arith))
      (λ open_groups. walk-Comes before open_groups rest (ground arith))

onward_step :
    (s : Bytes) (r : Reason ⊎ (ℕ × List Group)) (open_groups : List Group)
    → r ≡ inr (0, open_groups)
    → onward s r ≡ walk 0 open_groups s
onward_step s r open_groups e = ap (onward s) e

-- Within a group, only what the group has changes.
step-inner :
    (g : Group) (gs : List Group) (c : ℕ) (s : Bytes)
    → is_inner c ≡ true
    → (g' : Group) × (step (g ∷ gs) c s ≡ inr (0, g' ∷ gs))
      × (g'.has_inner_quant ≡ (is_repeat c || g.has_inner_quant))
step-inner g gs c s h = elim (Bool-cases (c == b'|')) [
  | inl bar ↦ (record g { has_alt = true }, ground arith, ground arith)
  | inr other ↦ elim (Bool-cases (is_repeat c)) [
    | inl repeats ↦ (record g { has_inner_quant = true }, ground arith, ground arith)
    | inr plain ↦ (g, ground arith, ground arith)
  ]
]

walk-inner :
    (body : Bytes) (g : Group) (gs : List Group) (rest : Bytes)
    → all is_inner body ≡ true
    → (g' : Group) × (walk 0 (g ∷ gs) (body ++ rest) ≡ walk 0 (g' ∷ gs) rest)
      × (g'.has_inner_quant ≡ (any is_repeat body || g.has_inner_quant))
walk-inner [] g gs rest h = (g, refl, refl)
walk-inner (c ∷ body) g gs rest h =
    let (g1, e1, q1) = step-inner g gs c (body ++ rest) (ground arith) in
    let (g2, e2, q2) = walk-inner body g1 gs rest (ground arith) in
    (
      g2,
      onward_step (body ++ rest) (step (g ∷ gs) c (body ++ rest)) (g1 ∷ gs) e1 ∙ e2,
      ground arith,
    )

walk-closing :
    (g : Group) (gs : List Group) (c : ℕ) (rest : Bytes)
    → g.has_inner_quant ≡ true
    → is_repeat c ≡ true
    → walk 0 (g ∷ gs) (b')' ∷ (c ∷ rest)) ≡ some nested_quantifier
walk-closing g gs c rest h r = ground arith

walk-nested :
    (body rest : Bytes) (c : ℕ) (gs : List Group)
    → all is_inner body ≡ true
    → any is_repeat body ≡ true
    → is_repeat c ≡ true
    → walk 0 gs (b'(' ∷ (body ++ (b')' ∷ (c ∷ rest)))) ≡ some nested_quantifier
walk-nested body rest c gs h q r =
    let new : Group = record { has_alt = false; has_inner_quant = false } in
    let (g, e, has) = walk-inner body new gs (b')' ∷ (c ∷ rest)) h in
    rw e (walk-closing g gs c rest (ground arith) r)

-- A group that holds a `*` or a `+` and stands under a `*` or a `+` itself is refused, wherever
-- it stands, behind any text without escapes and braces, its open groups included, and whatever
-- follows, as long as the group holds no escape, brace or group of its own.
pub is_pathological_grep_pattern_nested :
    (before body rest : Bytes) (c : ℕ)
    → all is_simple before ≡ true
    → all is_inner body ≡ true
    → any is_repeat body ≡ true
    → is_repeat c ≡ true
    → (why : Reason) × (is_pathological_grep_pattern
          (before ++ (b'(' ∷ (body ++ (b')' ∷ (c ∷ rest)))))
        ≡ some why)
unfolding is_pathological_grep_pattern
is_pathological_grep_pattern_nested before body rest c simple inner holds repeats =
    let group = b'(' ∷ (body ++ (b')' ∷ (c ∷ rest))) in
    elim (Bool-cases (ltb 5 (count_from 0 (before ++ group)))) [
      | inl many ↦ (too_many, rw many refl)
      | inr few ↦ elim (walk-Comes before [] group simple) [
        | inl (why, found) ↦ (why, rw few found)
        | inr (gs, same) ↦
            (nested_quantifier, rw few (rw same (walk-nested body rest c gs inner holds repeats)))
      ]
    ]
