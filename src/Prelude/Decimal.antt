-- ===== src/Prelude/Decimal.antt =====
-- Numbers as decimal text, and back.
use Prim.Native.Nat.{ℕ, zero, suc, ◌+◌, ◌/◌, ◌%◌, ◌<◌, ◌^◌}
use mathlib.Core.Path.{◌≡◌, refl, sym, ap, ◌∙◌}
use mathlib.Core.Bool.{true}
use mathlib.Core.Logic.{inl, inr}
use mathlib.Core.List.{List, [], ◌∷◌}
use mathlib.Core.Option.{Option, some}
use native.Mathlib.Omega.{arith}
use power_manage_sdk.Prelude.Tests.{◌==◌, Bool-cases}
use power_manage_sdk.Prelude.Lists.{all}
use power_manage_sdk.Prelude.Int.{is_digit, digits_value, decimal_from, decimal, atoi, pos}

-- With enough rounds, what stands in front of the text reads as the number.
digits_value-decimal_from :
    (rounds n : ℕ) (acc : List ℕ)
    → n < rounds
    → digits_value 0 (decimal_from rounds n acc) ≡ digits_value n acc
unfolding decimal_from digits_value
digits_value-decimal_from zero n acc h = elim h [ ]
digits_value-decimal_from (suc rounds) n acc h = elim (Bool-cases (n / 10 == 0)) [
  | inl last ↦ rw last (ground arith)
  | inr more ↦ rw more (
      digits_value-decimal_from rounds (n / 10) ((b'0' + n % 10) ∷ acc) (ground arith)
      ∙ ground arith)
]

all-decimal_from :
    (rounds n : ℕ) (acc : List ℕ)
    → all is_digit acc ≡ true
    → all is_digit (decimal_from rounds n acc) ≡ true
unfolding decimal_from
all-decimal_from zero n acc h = h
all-decimal_from (suc rounds) n acc h =
    ground (arith, all-decimal_from rounds (n / 10) ((b'0' + n % 10) ∷ acc))

pub all-decimal : (n : ℕ) → all is_digit (decimal n) ≡ true
unfolding decimal
all-decimal n = all-decimal_from (suc n) n [] refl

decimal_from_cons :
    (rounds n c : ℕ) (acc : List ℕ)
    → (d : ℕ) × (ds : List ℕ) × (decimal_from rounds n (c ∷ acc) ≡ d ∷ ds)
unfolding decimal_from
decimal_from_cons zero n c acc = (c, acc, refl)
decimal_from_cons (suc rounds) n c acc = elim (Bool-cases (n / 10 == 0)) [
  | inl last ↦ (b'0' + n % 10, c ∷ acc, rw last refl)
  | inr more ↦
      let (d, ds, e) = decimal_from_cons rounds (n / 10) (b'0' + n % 10) (c ∷ acc) in
      (d, ds, rw more e)
]

pub decimal_cons : (n : ℕ) → (d : ℕ) × (ds : List ℕ) × (decimal n ≡ d ∷ ds)
unfolding decimal
decimal_cons n = elim (Bool-cases (n / 10 == 0)) [
  | inl last ↦ (b'0' + n % 10, [], rw last refl)
  | inr more ↦
      let (d, ds, e) = decimal_from_cons n (n / 10) (b'0' + n % 10) [] in (d, ds, rw more e)
]

pub digits_value-decimal : (n : ℕ) → digits_value 0 (decimal n) ≡ some n
unfolding decimal digits_value
digits_value-decimal n = digits_value-decimal_from (suc n) n [] (omega arith)

-- A number that an `int` holds is read back.
pub atoi-decimal : (n : ℕ) → n < 2 ^ 63 → atoi (decimal n) ≡ some (pos n)
unfolding atoi
atoi-decimal n h =
    let (d, ds, e) = decimal_cons n in
    let value : digits_value 0 (d ∷ ds) ≡ some n = rw e at (digits_value-decimal n) in
    let digits : all is_digit (d ∷ ds) ≡ true = rw e at (all-decimal n) in rw e (ground arith)

-- Different numbers have different texts.
pub decimal-injective : (m n : ℕ) → decimal m ≡ decimal n → m ≡ n
decimal-injective m n e =
    let same : ◌≡◌ {A = Option ℕ} (some m) (some n) =
      sym (digits_value-decimal m) ∙ ap (digits_value 0) e ∙ digits_value-decimal n in
    cc
