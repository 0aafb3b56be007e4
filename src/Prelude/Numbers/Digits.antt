-- ===== src/Prelude/Numbers/Digits.antt =====
-- Numerals are read back as the numbers that they were printed for.
use Prim.Native.Nat.{ℕ, zero, suc, ◌+◌, ◌-◌, ◌*◌, ◌/◌, ◌%◌, ◌≤◌}
use mathlib.Core.Path.{◌≡◌, refl, ap, sym, ◌∙◌}
use mathlib.Core.Logic.{inl, inr}
use mathlib.Core.List.{[], ◌∷◌, ◌++◌}
use native.Mathlib.Omega.{arith}
use judge_it.Prelude.Tests.{ltb, Bool-cases}
use judge_it.Prelude.Text.{Text, is_nil, is_space, trim_start}
use judge_it.Prelude.Int.{pos}
use judge_it.Prelude.Lists.{All, All-append}
use mathlib.Core.Bool.{true, false}
use mathlib.Core.Option.{some}
use judge_it.Prelude.Numbers.{
  show_fuel, show_nat, show_nat-not_nil, is_digit, digits, value_of, sign, parse_int,
}

-- The number of a numeral, after the digits that were read so far.
abbrev value : ℕ → Text → ℕ
value acc [] = acc
value acc (c ∷ s) = value (acc * 10 + (c - b'0')) s

value-append : (acc c : ℕ) (s : Text) → value acc (s ++ c ∷ []) ≡ value acc s * 10 + (c - b'0')
value-append acc c [] = refl
value-append acc c (d ∷ s) = value-append (acc * 10 + (d - b'0')) c s

value-show_fuel : (fuel n : ℕ) → n ≤ fuel → value 0 (show_fuel fuel n) ≡ n
unfolding show_fuel
value-show_fuel zero n h = omega arith
value-show_fuel (suc fuel) n h = elim (Bool-cases (ltb n 10)) [
  | inl small ↦ rw small (omega arith)
  | inr large ↦ rw large (
      value-append 0 (b'0' + n % 10) (show_fuel fuel (n / 10))
      ∙ ap (λ v. v * 10 + (b'0' + n % 10 - b'0'))
          (value-show_fuel fuel (n / 10) (ground (arith, large)))
      ∙ omega arith)
]

value_of-value : (acc : ℕ) (s : Text) → value_of acc s ≡ value acc s
unfolding value_of
value_of-value acc [] = refl
value_of-value acc (c ∷ s) = value_of-value (acc * 10 + (c - b'0')) s

pub show_nat-injective : (m n : ℕ) → show_nat m ≡ show_nat n → m ≡ n
unfolding show_nat
show_nat-injective m n h =
    sym (value-show_fuel m m (omega arith)) ∙ ap (value 0) h ∙ value-show_fuel n n (omega arith)

pub value_of-show_nat : (n : ℕ) → value_of 0 (show_nat n) ≡ n
unfolding show_nat
value_of-show_nat n = value_of-value 0 (show_fuel n n) ∙ value-show_fuel n n (omega arith)

abbrev IsDigit : ℕ → Type 0
IsDigit c = is_digit c ≡ true

show_fuel-IsDigit : (fuel n : ℕ) → All IsDigit (show_fuel fuel n)
unfolding show_fuel
show_fuel-IsDigit zero n = (ground arith, tt)
show_fuel-IsDigit (suc fuel) n = elim (Bool-cases (ltb n 10)) [
  | inl small ↦ rw small (ground (arith, small), tt)
  | inr large ↦ rw large (
      All-append IsDigit (show_fuel fuel (n / 10)) ((b'0' + n % 10) ∷ [])
        (show_fuel-IsDigit fuel (n / 10)) (ground arith, tt))
]

digits-All : (s : Text) → All IsDigit s → digits s ≡ (s, [])
unfolding digits
digits-All [] h = refl
digits-All (c ∷ s) h = rw (digits-All s h.1, h.0) refl

trim_start-digit : (c : ℕ) (s : Text) → IsDigit c → trim_start (c ∷ s) ≡ c ∷ s
unfolding trim_start is_space
trim_start-digit c s h = ground arith

sign-digit : (c : ℕ) (s : Text) → IsDigit c → sign (c ∷ s) ≡ (false, c ∷ s)
unfolding sign
sign-digit c s h = ground arith

parse_int-digits :
    (s : Text) → All IsDigit s → is_nil s ≡ false → parse_int s ≡ some (pos (value_of 0 s))
unfolding parse_int value_of
parse_int-digits [] h filled = cc
parse_int-digits (c ∷ s) h filled =
    rw (trim_start-digit c s h.0, sign-digit c s h.0, digits-All (c ∷ s) h) refl

-- A numeral that was printed is parsed as its number.
pub parse_int-show_nat : (n : ℕ) → parse_int (show_nat n) ≡ some (pos n)
parse_int-show_nat n =
    parse_int-digits (show_nat n) (unfold show_nat in show_fuel-IsDigit n n) (show_nat-not_nil n)
    ∙ ap (λ v. some (pos v)) (value_of-show_nat n)
