-- ===== src/Maintenance.antt =====
-- maintenance/window.go: the parser, validator, union and evaluator of maintenance windows.
-- An error value carries what the message would show. A nil entry or window is `none`.
pub mod Clock
pub mod Coverage
pub mod Validity
pub mod Union
mod Tests
use power_manage_sdk.Prelude.{
  ℕ, suc, ◌+◌, ◌*◌, ◌%◌, Bool, true, false, not, ◌&&◌, ◌||◌, Option, none, some, List, [], ◌∷◌,
  ◌++◌, leb, ltb, ◌==◌, if◌then◌else◌, length, get_or, take, drop, any, Bytes, codes, equal, member,
  Result, ok, err, ◌>>=◌, ◌>>◌, refuse, wrap, ℤ, is_negative, to_ℕ, is_digit, atoi,
}

pub record Entry : Type 0 where
  pub days : List Bytes
  pub allow : Bytes

pub record Window : Type 0 where
  pub schedule : List (Option Entry)

-- What `time.Time` answers: Weekday() with Sunday 0, Hour() and Minute().
pub record Time : Type 0 where
  pub weekday : ℕ
  pub hour : ℕ
  pub minute : ℕ

pub data ClockError : Type 0 where
  clock_shape hour_digits minute_digits hour_range minute_range : Bytes → ClockError

pub data RangeError : Type 0 where
  range_shape zero_length : Bytes → RangeError
  allow_start allow_end : ClockError → RangeError

pub data EntryError : Type 0 where
  nil_entry no_days : EntryError
  bad_day day_twice : Bytes → EntryError
  bad_allow : RangeError → EntryError

-- `ErrInvalidEntry`, with the index of the entry.
pub data ValidateError : Type 0 where
  invalid_entry : ℕ → EntryError → ValidateError

abbrev pub weekday_tokens : List Bytes
weekday_tokens =
    codes "sun"
    ∷ codes "mon"
    ∷ codes "tue"
    ∷ codes "wed"
    ∷ codes "thu"
    ∷ codes "fri"
    ∷ codes "sat"
    ∷ []

abbrev pub token : ℕ → Bytes
token d = get_or weekday_tokens d []

pub is_two_digits : Bytes → Bool
is_two_digits s =
    if not (length s == 2) then false else is_digit (get_or s 0 0) && is_digit (get_or s 1 0)

-- `strconv.Atoi` and the range check behind it.
pub field : Bytes → ℕ → ClockError → Result ClockError ℕ
unfolding atoi
field s most e = elim (atoi s) [
  | none ↦ err e
  | some n ↦ if is_negative n || ltb most (to_ℕ n) then err e else ok (to_ℕ n)
]

unfoldable pub parse_clock : Bytes → Result ClockError ℕ
parse_clock s = do
  refuse (not (length s == 5) || not (get_or s 2 0 == b':')) (clock_shape s)
  refuse (not (is_two_digits (take 2 s))) (hour_digits (take 2 s))
  refuse (not (is_two_digits (drop 3 s))) (minute_digits (drop 3 s))
  h ← field (take 2 s) 23 (hour_range (take 2 s))
  m ← field (drop 3 s) 59 (minute_range (drop 3 s))
  ok (h * 60 + m)

unfoldable pub parse_range : Bytes → Result RangeError (ℕ × ℕ)
parse_range s = do
  refuse (not (length s == 11) || not (get_or s 5 0 == b'-')) (range_shape s)
  start ← wrap allow_start (parse_clock (take 5 s))
  end ← wrap allow_end (parse_clock (drop 6 s))
  refuse (start == end) (zero_length s)
  ok (start, end)

pub is_weekday_token : Bytes → Bool
unfolding member
is_weekday_token d = if not (length d == 3) then false else member d weekday_tokens

-- The loop over `e.Days`; `seen` is the set of the days so far.
pub validate_days : List Bytes → List Bytes → Result EntryError (Unit {0})
validate_days seen [] = ok tt
validate_days seen (d ∷ ds) = do
  refuse (not (is_weekday_token d)) (bad_day d)
  refuse (member d seen) (day_twice d)
  validate_days (d ∷ seen) ds

abbrev no_day_listed : List Bytes → Bool
no_day_listed [] = true
no_day_listed (_ ∷ _) = false

pub validate_entry : Option Entry → Result EntryError (Unit {0})
validate_entry none = err nil_entry
validate_entry (some e) = do
  refuse (no_day_listed e.days) no_days
  validate_days [] e.days
  _ ← wrap bad_allow (parse_range e.allow)
  ok tt

-- The loop of `Validate`, from index `i` on.
pub validate_from : ℕ → List (Option Entry) → Result ValidateError (Unit {0})
validate_from i [] = ok tt
validate_from i (e ∷ es) = do wrap (invalid_entry i) (validate_entry e); validate_from (suc i) es

pub validate : Option Window → Result ValidateError (Unit {0})
validate none = ok tt
validate (some w) = validate_from 0 w.schedule

pub entry_lists_day : List Bytes → Bytes → Bool
unfolding member
entry_lists_day days day = member day days

-- The two branches of `entryAllows`, once the range is parsed.
pub range_allows : List Bytes → ℕ → ℕ → Time → Bool
range_allows days start end t =
    let now = t.hour * 60 + t.minute in
    let today = entry_lists_day days (token t.weekday) in
    let yesterday = entry_lists_day days (token ((t.weekday + 6) % 7)) in
    if today && (if leb start end then leb start now && ltb now end else leb start now)
    then true
    else if ltb end start
    then yesterday && ltb now end
    else false

pub entry_allows : Option Entry → Time → Bool
entry_allows none t = false
entry_allows (some e) t = elim (parse_range e.allow) [
  | err _ ↦ false
  | ok (start, end) ↦ range_allows e.days start end t
]

abbrev pub entries : Option Window → List (Option Entry)
entries none = []
entries (some w) = w.schedule

abbrev pub no_entry : List (Option Entry) → Bool
no_entry [] = true
no_entry (_ ∷ _) = false

-- `w == nil || len(w.GetSchedule()) == 0`.
abbrev pub is_unconstrained : Option Window → Bool
is_unconstrained w = no_entry (entries w)

pub is_allowed : Option Window → Time → Bool
is_allowed w t = if is_unconstrained w then true else any (λ e. entry_allows e t) (entries w)

abbrev joined : List (Option Window) → List (Option Entry)
joined [] = []
joined (w ∷ ws) = entries w ++ joined ws

pub union : List (Option Window) → Window
union ws =
    if any is_unconstrained ws then record { schedule = [] } else record { schedule = joined ws }
