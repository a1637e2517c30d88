-- ===== src/Maintenance/Validity.antt =====
-- Validate against a description of the schedules that it accepts.
use power_manage_sdk.Maintenance.Clock.{print_range, parse_range-print_range, parse_range-eq-ok}
use power_manage_sdk.Maintenance.{
  Entry, Window, token, weekday_tokens, parse_range, is_weekday_token, validate_days,
  validate_entry, validate_from, validate, entries,
}
use mathlib.Core.Bool.{false≢true}
use power_manage_sdk.Prelude.{
  ℕ, suc, ◌<◌, ◌≡◌, ◌≢◌, ◌↔◌, inl, inr, refl, arith, true, false, Bool, List, Option, some, none,
  [], ◌∷◌, if◌then◌else◌, Bytes, ok, is_ok, All, member, equal, not, Result-cases, zero, index_of,
  length, ◌==◌, equal_comm,
}

abbrev pub IsWeekday : Bytes → Type 0
IsWeekday d = (i : ℕ) × (i < 7) × (d ≡ token i)

-- No element stands twice.
abbrev pub Distinct : List Bytes → Type 0
Distinct [] = Unit
Distinct (d ∷ ds) = (member d ds ≡ false) × Distinct ds

pub record IsWellFormed (e : Entry) : Type 0 where
  pub some_day : e.days ≢ []
  pub weekdays : All IsWeekday e.days
  pub distinct : Distinct e.days
  pub start : ℕ
  pub end : ℕ
  pub start_of_day : start < 1440
  pub end_of_day : end < 1440
  pub not_empty : start ≢ end
  pub range : e.allow ≡ print_range start end

abbrev pub IsEntry : Option Entry → Type 0
IsEntry none = ⊥
IsEntry (some e) = IsWellFormed e

token-is_weekday_token : (i : ℕ) → i < 7 → is_weekday_token (token i) ≡ true
unfolding is_weekday_token member equal
token-is_weekday_token zero h = refl
token-is_weekday_token (suc zero) h = refl
token-is_weekday_token (suc (suc zero)) h = refl
token-is_weekday_token (suc (suc (suc zero))) h = refl
token-is_weekday_token (suc (suc (suc (suc zero)))) h = refl
token-is_weekday_token (suc (suc (suc (suc (suc zero))))) h = refl
token-is_weekday_token (suc (suc (suc (suc (suc (suc zero)))))) h = refl
token-is_weekday_token (suc (suc (suc (suc (suc (suc (suc i))))))) h = absurd (omega arith)

guarded : (b m : Bool) → (if not b then false else m) ≡ true → m ≡ true
guarded true m h = h
guarded false m h = cc

is_weekday_token-IsWeekday : (d : Bytes) → is_weekday_token d ≡ true → IsWeekday d
unfolding is_weekday_token
is_weekday_token-IsWeekday d h =
    index_of d weekday_tokens (guarded (length d == 3) (member d weekday_tokens) h)

abbrev Unseen : List Bytes → List Bytes → Type 0
Unseen seen ds = All (λ d. member d seen ≡ false) ds

-- What one round of the loop has checked, and what it leaves to the rest.
days_inv :
    (seen : List Bytes) (d : Bytes) (ds : List Bytes)
    → validate_days seen (d ∷ ds) ≡ ok tt
    → (is_weekday_token d ≡ true) × (member d seen ≡ false) × (validate_days (d ∷ seen) ds ≡ ok tt)
unfolding validate_days
days_inv seen d ds h = ground arith

days_step :
    (seen : List Bytes) (d : Bytes) (ds : List Bytes)
    → is_weekday_token d ≡ true
    → member d seen ≡ false
    → validate_days (d ∷ seen) ds ≡ ok tt
    → validate_days seen (d ∷ ds) ≡ ok tt
unfolding validate_days
days_step seen d ds known fresh rest = ground arith

Unseen-cons :
    (seen : List Bytes) (d : Bytes) (ds : List Bytes)
    → Unseen (d ∷ seen) ds ↔ ((member d ds ≡ false) × Unseen seen ds)
unfolding member
Unseen-cons seen d [] = (λ _. (refl, tt), λ _. tt)
Unseen-cons seen d (x ∷ ds) = (
  λ (h, t). ground (arith, equal_comm x d, (Unseen-cons seen d ds).0 t),
  λ (m, (h, t)). (ground (arith, equal_comm x d), (Unseen-cons seen d ds).1 (ground arith, t)),
)

validate_days_sound :
    (seen ds : List Bytes)
    → validate_days seen ds ≡ ok tt
    → All IsWeekday ds × Distinct ds × Unseen seen ds
validate_days_sound seen [] h = (tt, tt, tt)
validate_days_sound seen (d ∷ ds) h =
    let (known, fresh, rest) = days_inv seen d ds h in
    let (weekdays, distinct, unseen) = validate_days_sound (d ∷ seen) ds rest in
    let (once, unseen') = (Unseen-cons seen d ds).0 unseen in
    ((is_weekday_token-IsWeekday d known, weekdays), (once, distinct), (fresh, unseen'))

validate_days_complete :
    (seen ds : List Bytes)
    → All IsWeekday ds
    → Distinct ds
    → Unseen seen ds
    → validate_days seen ds ≡ ok tt
validate_days_complete seen [] w u n = unfold validate_days in refl
validate_days_complete seen (d ∷ ds) ((i, below, same), w) (once, u) (fresh, n) =
    days_step seen d ds (rw same (token-is_weekday_token i below)) fresh
      (validate_days_complete (d ∷ seen) ds w u ((Unseen-cons seen d ds).1 (once, n)))

Unseen-nil : (ds : List Bytes) → Unseen [] ds
unfolding member
Unseen-nil [] = tt
Unseen-nil (d ∷ ds) = (refl, Unseen-nil ds)

entry_inv :
    (e : Entry)
    → validate_entry (some e) ≡ ok tt
    → (e.days ≢ []) × (validate_days [] e.days ≡ ok tt) × (is_ok (parse_range e.allow) ≡ true)
unfolding validate_entry
entry_inv e h = ground arith

entry_step :
    (e : Entry) (r : ℕ × ℕ)
    → e.days ≢ []
    → validate_days [] e.days ≡ ok tt
    → parse_range e.allow ≡ ok r
    → validate_entry (some e) ≡ ok tt
unfolding validate_entry
entry_step e r some_day days range = ground arith

validate_entry_sound : (e : Option Entry) → validate_entry e ≡ ok tt → IsEntry e
validate_entry_sound none h = unfold validate_entry in cc
validate_entry_sound (some e) h =
    let (some_day, days, parsed) = entry_inv e h in
    let (weekdays, distinct, _) = validate_days_sound [] e.days days in
    elim (Result-cases (parse_range e.allow)) [
      | inl ((start, end), p) ↦
          let (below, below', ne, range) = parse_range-eq-ok e.allow start end p in
          record {
            some_day = some_day;
            weekdays = weekdays;
            distinct = distinct;
            start = start;
            end = end;
            start_of_day = below;
            end_of_day = below';
            not_empty = ne;
            range = range;
          }
      | inr (x, p) ↦ absurd (false≢true (rw p at parsed))
    ]

validate_entry_complete : (e : Option Entry) → IsEntry e → validate_entry e ≡ ok tt
validate_entry_complete none h = absurd h
validate_entry_complete (some e) h =
    entry_step e (h.start, h.end) h.some_day
      (validate_days_complete [] e.days h.weekdays h.distinct (Unseen-nil e.days))
      (rw h.range (parse_range-print_range h.start h.end h.start_of_day h.end_of_day h.not_empty))

from_inv :
    (i : ℕ) (e : Option Entry) (es : List (Option Entry))
    → validate_from i (e ∷ es) ≡ ok tt
    → (validate_entry e ≡ ok tt) × (validate_from (suc i) es ≡ ok tt)
unfolding validate_from
from_inv i e es h = ground arith

validate_from_sound :
    (i : ℕ) (es : List (Option Entry)) → validate_from i es ≡ ok tt → All IsEntry es
validate_from_sound i [] h = tt
validate_from_sound i (e ∷ es) h =
    let (first, rest) = from_inv i e es h in
    (validate_entry_sound e first, validate_from_sound (suc i) es rest)

validate_from_complete :
    (i : ℕ) (es : List (Option Entry)) → All IsEntry es → validate_from i es ≡ ok tt
unfolding validate_from
validate_from_complete i [] h = refl
validate_from_complete i (e ∷ es) (h, t) =
    rw (validate_entry_complete e h) (validate_from_complete (suc i) es t)

-- A window is accepted exactly when each entry lists at least one weekday, lists canonical
-- weekday tokens only and none twice, and has the printed form of a range between two distinct
-- minutes of the day.
pub validate-IsEntry : (w : Option Window) → (validate w ≡ ok tt) ↔ All IsEntry (entries w)
unfolding validate
validate-IsEntry none = (λ _. tt, λ _. refl)
validate-IsEntry (some w) = (validate_from_sound 0 w.schedule, validate_from_complete 0 w.schedule)
