-- ===== src/Maintenance/Coverage.antt =====
-- entryAllows against the minutes of the week.
use power_manage_sdk.Maintenance.Clock.{parse_range-eq-ok}
use power_manage_sdk.Maintenance.{
  Entry, Time, token, parse_range, entry_lists_day, range_allows, entry_allows,
}
use power_manage_sdk.Prelude.{
  ℕ, ◌+◌, ◌-◌, ◌*◌, ◌%◌, ◌<◌, ◌≤◌, ◌≡◌, ◌≢◌, ◌↔◌, ◌⊎◌, inl, inr, refl, arith, true, false, Bool,
  List, Option, some, none, ltb, leb, ◌&&◌, if◌then◌else◌, Bytes, ok, Bool-cases, is_ok,
}

pub record IsTime (t : Time) : Type 0 where
  pub day_of_week : t.weekday < 7
  pub hour_of_day : t.hour < 24
  pub minute_of_hour : t.minute < 60

-- Minutes since Sunday 00:00.
abbrev pub week_minute : Time → ℕ
week_minute t = t.weekday * 1440 + (t.hour * 60 + t.minute)

-- Minutes since the range last opened on weekday `d`, in a week that wraps round.
abbrev pub since : ℕ → ℕ → Time → ℕ
since d start t = (week_minute t + 10080 - (d * 1440 + start)) % 10080

-- How long the range stays open; one that ends before it starts runs past midnight.
abbrev pub span : ℕ → ℕ → ℕ
span start end = (end + 1440 - start) % 1440

abbrev pub Covers : Entry → ℕ → ℕ → Time → Type 0
Covers e start end t =
    (d : ℕ) × (d < 7)
    × (entry_lists_day e.days (token d) ≡ true)
    × (since d start t < span start end)

-- The only days on which a range that is open now can have opened.
opening_day :
    (d start end : ℕ) (t : Time)
    → IsTime t
    → d < 7
    → start < 1440
    → end < 1440
    → since d start t < span start end
    → let now = t.hour * 60 + t.minute in
      ((d ≡ t.weekday) × (start ≤ now) × ((now < end) ⊎ (end < start)))
      ⊎ ((d ≡ (t.weekday + 6) % 7) × (end < start) × (now < end))
opening_day d start end t v h k l c = ground arith

today_open :
    (start end : ℕ) (t : Time)
    → IsTime t
    → start < 1440
    → end < 1440
    → start ≢ end
    → start ≤ t.hour * 60 + t.minute
    → (t.hour * 60 + t.minute < end) ⊎ (end < start)
    → since t.weekday start t < span start end
today_open start end t v k l ne h (inl c) = omega arith
today_open start end t v k l ne h (inr c) = omega arith

yesterday_open :
    (start end : ℕ) (t : Time)
    → IsTime t
    → start < 1440
    → end < start
    → t.hour * 60 + t.minute < end
    → since ((t.weekday + 6) % 7) start t < span start end
yesterday_open start end t v k l h = omega arith

covered :
    (days : List Bytes) (start end : ℕ) (t : Time)
    → IsTime t
    → start < 1440
    → end < 1440
    → start ≢ end
    → range_allows days start end t ≡ true
    → (d : ℕ) × (d < 7)
      × (entry_lists_day days (token d) ≡ true)
      × (since d start t < span start end)
unfolding range_allows
covered days start end t v k l ne h =
    elim (Bool-cases (entry_lists_day days (token t.weekday) && open_today)) [
      | inl now ↦ (
        t.weekday,
        v.day_of_week,
        ground arith,
        today_open start end t v k l ne (ground arith) (ground arith),
      )
      | inr later ↦ (
        (t.weekday + 6) % 7,
        omega arith,
        ground arith,
        yesterday_open start end t v k (ground arith) (ground arith),
      )
    ]
  where
    open_today : Bool
    open_today =
        let now = t.hour * 60 + t.minute in
        if leb start end then leb start now && ltb now end else leb start now

open_when_covered :
    (days : List Bytes) (start end d : ℕ) (t : Time)
    → IsTime t
    → d < 7
    → start < 1440
    → end < 1440
    → entry_lists_day days (token d) ≡ true
    → since d start t < span start end
    → range_allows days start end t ≡ true
unfolding range_allows
open_when_covered days start end d t v h k l listed c = elim (opening_day d start end t v h k l c) [
  | inl (same, after, before) ↦ let today = rw same at listed in ground arith
  | inr (same, wraps, before) ↦ let yesterday = rw same at listed in ground arith
]

-- At a real moment, an entry with range start-end allows it exactly when the range opened on
-- some listed weekday fewer minutes ago than it stays open, in a week that wraps round.
pub entry_allows-Covers :
    (e : Entry) (start end : ℕ) (t : Time)
    → IsTime t
    → parse_range e.allow ≡ ok (start, end)
    → (entry_allows (some e) t ≡ true) ↔ Covers e start end t
unfolding entry_allows
entry_allows-Covers e start end t v h =
    let (k, l, ne, _) = parse_range-eq-ok e.allow start end h in
    rw (h, entry_allows)
      (
        covered e.days start end t v k l ne,
        λ (d, below, listed, c). open_when_covered e.days start end d t v below k l listed c,
      )

-- An entry that is nil or whose range does not parse allows no moment.
pub entry_allows_malformed :
    (e : Option Entry) (t : Time)
    → ((x : Entry) → e ≡ some x → is_ok (parse_range x.allow) ≡ false)
    → entry_allows e t ≡ false
unfolding entry_allows
entry_allows_malformed none t h = refl
entry_allows_malformed (some e) t h = ground (arith, h e refl)
