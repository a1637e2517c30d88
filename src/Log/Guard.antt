-- ===== src/Log/Guard.antt =====
-- sys/log/grepguard.go: patterns that may backtrack without end.
use power_manage_sdk.Prelude.{
  ℕ, zero, suc, ◌+◌, Bool, true, false, not, ◌&&◌, ◌||◌, ◌⊎◌, inl, inr, Option, none, some, List,
  [], ◌∷◌, Bytes, is_empty, length, ◌==◌, ltb, leb, if◌then◌else◌, ℤ, is_negative, to_ℕ, atoi,
  cut_at, trim_space,
}

pub data Reason : Type 0 where
  too_many nested_quantifier alternation bounded_repetition : Reason

-- What stands between a brace that opens the text and the next that closes.
abbrev body_of : Option (Bytes × Bytes) → Option Bytes
body_of none = none
body_of (some (body, after)) = some body

abbrev pub braced : Bytes → Option Bytes
braced [] = none
braced (c ∷ p) = if c == b'{' then body_of (cut_at b'}' p) else none

abbrev ends_open : Option (Bytes × Bytes) → Bool
ends_open (some (_, [])) = true
ends_open _ = false

abbrev open_body : Option Bytes → Bool
open_body none = false
open_body (some body) = ends_open (cut_at b',' body)

-- `quantifierUnbounded`.
unfoldable pub quantifier_unbounded : Bytes → Bool
quantifier_unbounded p = open_body (braced p)

abbrev pair_of : Option ℤ → Option ℤ → Option (ℤ × ℤ)
pair_of (some n) (some m) = some (n, m)
pair_of _ _ = none

abbrev ends_with_comma : Bytes → Bool
ends_with_comma [] = false
ends_with_comma (c ∷ []) = c == b','
ends_with_comma (c ∷ (d ∷ s)) = ends_with_comma (d ∷ s)

abbrev bounds_in : Bytes → Option (Bytes × Bytes) → Option (ℤ × ℤ)
bounds_in body none = pair_of (atoi (trim_space body)) (atoi (trim_space body))
bounds_in body (some (n, m)) = pair_of (atoi (trim_space n)) (atoi (trim_space m))

abbrev body_bounds : Option Bytes → Option (ℤ × ℤ)
body_bounds none = none
body_bounds (some body) = if ends_with_comma body then none else bounds_in body (cut_at b',' body)

-- `boundedRepeatBounds`.
unfoldable pub bounded_repeat_bounds : Bytes → Option (ℤ × ℤ)
unfolding atoi trim_space
bounded_repeat_bounds p = body_bounds (braced p)

abbrev is_backslash : ℕ → Bool
is_backslash c = c == 92

-- How many unbounded quantifiers this byte begins.
abbrev pub counted : ℕ → Bytes → ℕ
counted c s = if c == b'*' || c == b'+' || (c == b'{' && quantifier_unbounded (c ∷ s)) then 1 else 0

-- The first loop; `skip` bytes are passed over.
abbrev pub count_from : ℕ → Bytes → ℕ
count_from skip [] = 0
count_from (suc skip) (c ∷ s) = count_from skip s
count_from zero (c ∷ s) =
    let escape = is_backslash c && not (is_empty s) in
    (if escape then 0 else counted c s) + count_from (if escape then 1 else 0) s

-- `groupState`.
pub record Group : Type 0 where
  pub has_alt : Bool
  pub has_inner_quant : Bool

abbrev pub mark_alt : List Group → List Group
mark_alt [] = []
mark_alt (g ∷ gs) = record g { has_alt = true } ∷ gs

abbrev pub mark_quant : List Group → List Group
mark_quant [] = []
mark_quant (g ∷ gs) = record g { has_inner_quant = true } ∷ gs

-- A closed group hands what it has seen to the group around it.
abbrev pub propagate : Group → List Group → List Group
propagate top [] = []
propagate top (g ∷ gs) =
    record {
      has_alt = g.has_alt || top.has_alt;
      has_inner_quant = g.has_inner_quant || top.has_inner_quant;
    }
    ∷ gs

abbrev pub at_least_two : Option (ℤ × ℤ) → Bool
at_least_two none = false
at_least_two (some (lo, hi)) = not (is_negative hi) && leb 2 (to_ℕ hi)

abbrev pub unbounded_next : Bytes → Bool
unbounded_next [] = false
unbounded_next (c ∷ s) = c == b'*' || c == b'+' || (c == b'{' && quantifier_unbounded (c ∷ s))

-- What follows a closed group decides.
abbrev pub closed : Group → Bytes → Option Reason
closed top s =
    if unbounded_next s && top.has_inner_quant
    then some nested_quantifier
    else if unbounded_next s && top.has_alt
    then some alternation
    else if top.has_inner_quant && at_least_two (bounded_repeat_bounds s)
    then some bounded_repetition
    else none

abbrev pub refused_or : Option Reason → List Group → Reason ⊎ (ℕ × List Group)
refused_or (some why) stack = inl why
refused_or none stack = inr (0, stack)

abbrev pub close : List Group → Bytes → Reason ⊎ (ℕ × List Group)
close [] s = inr (0, [])
close (top ∷ stack) s = refused_or (closed top s) (propagate top stack)

abbrev length_of : Option Bytes → ℕ
length_of none = 0
length_of (some body) = suc (length body)

-- One byte of the second loop: the reason to refuse, or how many bytes to skip and the open groups.
-- The depth of the source is the number of open groups.
abbrev pub step : List Group → ℕ → Bytes → Reason ⊎ (ℕ × List Group)
step stack c s =
    if is_backslash c && not (is_empty s)
    then inr (1, stack)
    else if c == b'('
    then inr (0, record { has_alt = false; has_inner_quant = false } ∷ stack)
    else if c == b')'
    then close stack s
    else if c == b'|'
    then inr (0, mark_alt stack)
    else if c == b'*' || c == b'+'
    then inr (0, mark_quant stack)
    else if c == b'{' && quantifier_unbounded (c ∷ s)
    then inr (length_of (braced (c ∷ s)), mark_quant stack)
    else inr (0, stack)

-- The second loop.
abbrev pub walk : ℕ → List Group → Bytes → Option Reason
walk skip stack [] = none
walk (suc skip) stack (c ∷ s) = walk skip stack s
walk zero stack (c ∷ s) = elim (step stack c s) [
  | inl why ↦ some why
  | inr (skip, open_groups) ↦ walk skip open_groups s
]

-- `isPathologicalGrepPattern`.
unfoldable pub is_pathological_grep_pattern : Bytes → Option Reason
unfolding quantifier_unbounded bounded_repeat_bounds
is_pathological_grep_pattern p = if ltb 5 (count_from 0 p) then some too_many else walk 0 [] p
