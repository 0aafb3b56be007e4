-- ===== src/Prelude/Numbers.antt =====
-- `parseInt` and `parseFloat` on decimal texts, and decimal numerals. A number that `parseFloat`
-- reads is kept as an exact decimal fraction: exponents, `Infinity` and the rounding to a double are
-- left out, as are the hexadecimal numbers of `parseInt`.
pub mod Digits
use Prim.Native.Nat.{ℕ, zero, suc, ◌+◌, ◌-◌, ◌*◌, ◌/◌, ◌%◌, ◌^◌}
use mathlib.Core.Path.{◌≡◌, refl}
use mathlib.Core.Logic.{inl, inr}
use mathlib.Core.Bool.{Bool, true, false, ◌&&◌}
use mathlib.Core.Option.{Option, none, some}
use mathlib.Core.List.{[], ◌∷◌, ◌++◌}
use judge_it.Prelude.Tests.{◌==◌, leb, ltb, if◌then◌else◌, Bool-cases}
use judge_it.Prelude.Int.{ℤ, pos, negsuc, sub_ℕ}
use judge_it.Prelude.Text.{Text, is_nil, trim_start}

abbrev pub is_digit : ℕ → Bool
is_digit c = leb b'0' c && leb c b'9'

-- The longest prefix of digits, and the rest.
unfoldable pub digits : Text → Text × Text
digits [] = ([], [])
digits (c ∷ s) = let (ds, rest) = digits s in if is_digit c then (c ∷ ds, rest) else ([], c ∷ s)

unfoldable pub value_of : ℕ → Text → ℕ
value_of acc [] = acc
value_of acc (d ∷ ds) = value_of (acc * 10 + (d - b'0')) ds

-- An optional sign: whether it is a minus, and the rest.
unfoldable pub sign : Text → Bool × Text
sign [] = (false, [])
sign (c ∷ s) = if c == b'-' then (true, s) else (if c == b'+' then (false, s) else (false, c ∷ s))

-- `none` is `NaN`.
unfoldable pub parse_int : Text → Option ℤ
unfolding digits value_of sign trim_start
parse_int s =
    let (negative, rest) = sign (trim_start s) in
    let (ds, _) = digits rest in
    if is_nil ds
    then none
    else some (if negative then sub_ℕ 0 (value_of 0 ds) else pos (value_of 0 ds))

-- digits / 10 ^ scale, or its negative.
pub record Decimal : Type 0 where
  pub negative : Bool
  pub digits : ℕ
  pub scale : ℕ

abbrev pub zero_decimal : Decimal
zero_decimal = record { negative = false; digits = 0; scale = 0 }

abbrev pub size : Text → ℕ
size [] = 0
size (c ∷ s) = suc (size s)

-- The digits after a decimal point, if one follows.
unfoldable pub fraction : Text → Text
unfolding digits
fraction [] = []
fraction (c ∷ s) = if c == b'.' then (digits s).0 else []

-- `none` is `NaN`.
unfoldable pub parse_float : Text → Option Decimal
unfolding digits value_of sign trim_start fraction
parse_float s =
    let (negative, rest) = sign (trim_start s) in
    let (whole, after) = digits rest in
    let part = fraction after in
    if is_nil whole && is_nil part
    then none
    else some
        (record { negative = negative; digits = value_of 0 (whole ++ part); scale = size part })

-- `Math.round(seconds * 1000)`; a negative time counts as 0 in the maximum that it goes into.
unfoldable pub round_ms : Decimal → ℕ
round_ms d = if d.negative then 0 else (2 * (d.digits * 1000) + 10 ^ d.scale) / (2 * 10 ^ d.scale)

-- `+(kb / 1024).toFixed(2)` in hundredths; a negative size counts as 0 likewise.
unfoldable pub round_mb : ℤ → ℕ
round_mb (pos kb) = (kb * 100 + 512) / 1024
round_mb (negsuc n) = 0

-- The decimal digits of a number. The fuel is the number itself: a number has at most as many digits.
unfoldable pub show_fuel : ℕ → ℕ → Text
show_fuel zero n = (b'0' + n % 10) ∷ []
show_fuel (suc fuel) n =
    let rest = show_fuel fuel (n / 10) in
    if ltb n 10 then (b'0' + n) ∷ [] else rest ++ (b'0' + n % 10) ∷ []

unfoldable pub show_nat : ℕ → Text
unfolding show_fuel
show_nat n = show_fuel n n

append-not_nil : (s : Text) (c : ℕ) → is_nil (s ++ c ∷ []) ≡ false
append-not_nil [] c = refl
append-not_nil (d ∷ s) c = refl

show_fuel-not_nil : (fuel n : ℕ) → is_nil (show_fuel fuel n) ≡ false
unfolding show_fuel
show_fuel-not_nil zero n = refl
show_fuel-not_nil (suc fuel) n = elim (Bool-cases (ltb n 10)) [
  | inl e ↦ rw e refl
  | inr e ↦ rw e (append-not_nil (show_fuel fuel (n / 10)) (b'0' + n % 10))
]

-- A numeral has a digit.
pub show_nat-not_nil : (n : ℕ) → is_nil (show_nat n) ≡ false
unfolding show_nat
show_nat-not_nil n = show_fuel-not_nil n n

unfoldable pub show_int : ℤ → Text
unfolding show_nat
show_int (pos n) = show_nat n
show_int (negsuc n) = b'-' ∷ show_nat (n + 1)
