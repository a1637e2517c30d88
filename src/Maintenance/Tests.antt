-- ===== src/Maintenance/Tests.antt =====
-- The tests of window_test.go in part, and the theorems at concrete windows.
use power_manage_sdk.Maintenance.Clock.{print_range, parse_range-print_range}
use power_manage_sdk.Maintenance.Coverage.{Covers, IsTime, entry_allows-Covers}
use power_manage_sdk.Maintenance.Validity.{IsEntry, validate-IsEntry}
use power_manage_sdk.Maintenance.Union.{is_allowed-union}
use power_manage_sdk.Maintenance.{
  Entry, Time, Window, parse_range, parse_clock, field, is_two_digits, is_weekday_token,
  validate_days, validate_entry, validate_from, validate, entries, entry_lists_day, range_allows,
  entry_allows, is_allowed, union, invalid_entry, day_twice, bad_allow, allow_start, hour_digits,
}
use power_manage_sdk.Prelude.{
  ◌≡◌, ◌↔◌, refl, arith, true, false, Option, some, [], ◌∷◌, any, codes, ok, err, All, member, atoi,
}

abbrev night : Entry
night = record { days = codes "fri" ∷ []; allow = codes "22:00-06:00" }

abbrev office : Entry
office = record { days = codes "mon" ∷ codes "tue" ∷ []; allow = codes "09:00-17:00" }

abbrev window : Entry → Option Window
window e = some (record { schedule = some e ∷ [] })

-- Saturday 05:59.
abbrev early : Time
early = record { weekday = 6; hour = 5; minute = 59 }

early-IsTime : IsTime early
early-IsTime = omega arith

night_range : parse_range night.allow ≡ ok (1320, 360)
unfolding parse_range parse_clock is_two_digits field atoi
night_range = refl

runs :
    (is_allowed (window night) early ≡ true)
    × (is_allowed (window night) (record early { hour = 6; minute = 0 }) ≡ false)
    × (is_allowed (window night) (record { weekday = 5; hour = 22; minute = 0 }) ≡ true)
    × (is_allowed (window office) early ≡ false)
unfolding is_allowed entry_allows range_allows parse_range parse_clock is_two_digits field atoi
    entry_lists_day member
runs = (refl, refl, refl, refl)

errors :
    (validate (
        some (record {
          schedule =
              some office ∷ some (record office { days = codes "mon" ∷ codes "mon" ∷ [] }) ∷ [];
        }))
      ≡ err (invalid_entry 1 (day_twice (codes "mon"))))
    × (validate (window (record office { allow = codes "+9:00-17:00" }))
        ≡ err (invalid_entry 0 (bad_allow (allow_start (hour_digits (codes "+9"))))))
unfolding validate validate_from validate_entry validate_days is_weekday_token parse_range
    parse_clock is_two_digits field atoi member
errors = (refl, refl)

validates : validate (window night) ≡ ok tt
unfolding validate validate_from validate_entry validate_days is_weekday_token parse_range
    parse_clock is_two_digits field atoi member
validates = refl

parse_range-print_range_example : parse_range (print_range 1320 360) ≡ ok (1320, 360)
parse_range-print_range_example =
    parse_range-print_range 1320 360 (omega arith) (omega arith) (omega arith)

entry_allows-Covers_example : (entry_allows (some night) early ≡ true) ↔ Covers night 1320 360 early
entry_allows-Covers_example = entry_allows-Covers night 1320 360 early early-IsTime night_range

validate-IsEntry_example : (validate (window night) ≡ ok tt) ↔ All IsEntry (entries (window night))
validate-IsEntry_example = validate-IsEntry (window night)

is_allowed-union_example :
    is_allowed (some (union (window office ∷ window night ∷ []))) early
    ≡ any (λ w. is_allowed w early) (window office ∷ window night ∷ [])
is_allowed-union_example = is_allowed-union (window office) (window night ∷ []) early
