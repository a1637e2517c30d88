-- ===== src/Maintenance/Clock.antt =====
-- parseClock and parseRange against a printer of clock times and ranges.
use power_manage_sdk.Maintenance.{
  ClockError, hour_range, minute_range, field, is_two_digits, parse_clock, parse_range,
}
use power_manage_sdk.Prelude.{
  ℕ, ◌+◌, ◌-◌, ◌*◌, ◌/◌, ◌%◌, ◌<◌, ◌≡◌, ◌≢◌, ap, ◌∙◌, arith, true, [], ◌∷◌, ◌++◌, ltb,
  if◌then◌else◌, Bytes, ok, err, take, drop, length, get_or, split_at,
}

-- Two decimal digits of a number below 100.
abbrev pub two_digits : ℕ → Bytes
two_digits n = (b'0' + n / 10) ∷ (b'0' + n % 10) ∷ []

abbrev pub print_clock : ℕ → Bytes
print_clock m = two_digits (m / 60) ++ (b':' ∷ two_digits (m % 60))

abbrev pub print_range : ℕ → ℕ → Bytes
print_range start end = print_clock start ++ (b'-' ∷ print_clock end)

abbrev number : ℕ → ℕ → ℕ
number a b = (a - b'0') * 10 + (b - b'0')

field_digits :
    (a b most : ℕ) (e : ClockError)
    → is_two_digits (a ∷ b ∷ []) ≡ true
    → field (a ∷ b ∷ []) most e ≡ (if ltb most (number a b) then err e else ok (number a b))
unfolding field is_two_digits
field_digits a b most e h = ground arith

-- What is left of `parseClock` once the two digit tests have passed.
clock_value :
    (a b c d : ℕ)
    → is_two_digits (a ∷ b ∷ []) ≡ true
    → is_two_digits (c ∷ d ∷ []) ≡ true
    → number a b < 24
    → number c d < 60
    → parse_clock (a ∷ b ∷ b':' ∷ c ∷ d ∷ []) ≡ ok (number a b * 60 + number c d)
unfolding parse_clock
clock_value a b c d hd md h m = ground (
  arith,
  field_digits a b 23 (hour_range (a ∷ b ∷ [])) hd,
  field_digits c d 59 (minute_range (c ∷ d ∷ [])) md,
)

two_digits-IsDigits :
    (n : ℕ)
    → n < 100
    → (is_two_digits (two_digits n) ≡ true) × (number (b'0' + n / 10) (b'0' + n % 10) ≡ n)
unfolding is_two_digits
two_digits-IsDigits n h = ground arith

-- The printed form of a minute of the day is read back.
pub parse_clock-print_clock : (m : ℕ) → m < 1440 → parse_clock (print_clock m) ≡ ok m
parse_clock-print_clock m h =
    let hours = two_digits-IsDigits (m / 60) (omega arith) in
    let minutes = two_digits-IsDigits (m % 60) (omega arith) in
    clock_value _ _ _ _ hours.0 minutes.0 (omega (arith, hours.1)) (omega (arith, minutes.1))
    ∙ ap ok (omega (arith, hours.1, minutes.1))

clock_inv :
    (a b x c d m : ℕ)
    → parse_clock (a ∷ b ∷ x ∷ c ∷ d ∷ []) ≡ ok m
    → (x ≡ b':')
      × (is_two_digits (a ∷ b ∷ []) ≡ true)
      × (is_two_digits (c ∷ d ∷ []) ≡ true)
      × (number a b < 24)
      × (number c d < 60)
      × (m ≡ number a b * 60 + number c d)
unfolding parse_clock
clock_inv a b x c d m h = ground (
  arith,
  field_digits a b 23 (hour_range (a ∷ b ∷ [])),
  field_digits c d 59 (minute_range (c ∷ d ∷ [])),
)

two_digits-number :
    (a b : ℕ) → is_two_digits (a ∷ b ∷ []) ≡ true → two_digits (number a b) ≡ a ∷ b ∷ []
unfolding is_two_digits
two_digits-number a b h = ground arith

-- Only printed forms are read.
pub parse_clock-eq-ok :
    (s : Bytes) (m : ℕ) → parse_clock s ≡ ok m → (m < 1440) × (s ≡ print_clock m)
unfolding parse_clock
parse_clock-eq-ok (a ∷ b ∷ x ∷ c ∷ d ∷ []) m h =
    let (colon, hours, minutes, below, below', value) = clock_inv a b x c d m h in
    (omega arith, ground (arith, two_digits-number a b hours, two_digits-number c d minutes))
parse_clock-eq-ok (a ∷ b ∷ x ∷ c ∷ d ∷ y ∷ s) m h = ground arith
parse_clock-eq-ok _ m h = ground arith

-- Every printed range of two distinct minutes of the day is read back.
pub parse_range-print_range :
    (start end : ℕ)
    → start < 1440
    → end < 1440
    → start ≢ end
    → parse_range (print_range start end) ≡ ok (start, end)
unfolding parse_range
parse_range-print_range start end h k ne =
    ground (arith, parse_clock-print_clock start h, parse_clock-print_clock end k)

-- What a successful `parseRange` has checked.
range_inv :
    (s : Bytes) (start end : ℕ)
    → parse_range s ≡ ok (start, end)
    → (length s ≡ 11)
      × (get_or s 5 0 ≡ b'-')
      × (parse_clock (take 5 s) ≡ ok start)
      × (parse_clock (drop 6 s) ≡ ok end)
      × (start ≢ end)
unfolding parse_range
range_inv s start end h = ground arith

-- And only such ranges are read.
pub parse_range-eq-ok :
    (s : Bytes) (start end : ℕ)
    → parse_range s ≡ ok (start, end)
    → (start < 1440) × (end < 1440) × (start ≢ end) × (s ≡ print_range start end)
parse_range-eq-ok s start end h =
    let (len, dash, first, second, ne) = range_inv s start end h in
    let (below, same) = parse_clock-eq-ok (take 5 s) start first in
    let (below', same') = parse_clock-eq-ok (drop 6 s) end second in
    (below, below', ne, split_at 5 s 0 (omega arith) ∙ rw (same, dash, same'))
