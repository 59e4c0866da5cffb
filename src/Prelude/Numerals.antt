-- ===== src/Prelude/Numerals.antt =====
-- Python's `int(s)` of a string and `str(n)` of an integer.
use Prim.Native.Nat.{ℕ, zero, suc, ◌+◌, ◌-◌, ◌*◌, ◌/◌, ◌%◌, ◌<◌}
use mathlib.Core.Path.{◌≡◌, refl}
use mathlib.Core.Logic.{◌≢◌}
use mathlib.Core.Bool.{Bool, ◌&&◌, ◌||◌}
use mathlib.Core.Option.{Option, none, some}
use mathlib.Core.List.{[], ◌∷◌, reverse}
use native.Mathlib.Omega.{arith}
use heat.Prelude.Tests.{ltb, leb, if◌then◌else◌, if_ind}
use heat.Prelude.Equality.{◌==◌, nat_eq}
use heat.Prelude.Int.{ℤ, pos, negsuc}
use heat.Prelude.Texts.{Text}

-- `c.isdigit()`, for a character of ASCII
abbrev pub is_digit : ℕ → Bool
is_digit c = leb 48 c && leb c 57

-- The digits of a number in front of `rest`; the fuel is larger than the number.
unfoldable pub decimal_from : ℕ → ℕ → Text → Text
decimal_from zero n rest = rest
decimal_from (suc fuel) n rest =
    let digits = (48 + n % 10) ∷ rest in
    let more = decimal_from fuel (n / 10) digits in if ltb n 10 then digits else more

unfoldable pub decimal : ℕ → Text
unfolding decimal_from
decimal n = decimal_from (suc n) n []

-- `str(i)`
unfoldable pub str_int : ℤ → Text
unfolding decimal
str_int (pos n) = decimal n
str_int (negsuc n) = 45 ∷ decimal (suc n)

unfoldable pub read_digits : ℕ → Text → Option ℕ
read_digits value [] = some value
read_digits value (c ∷ s) = if is_digit c then read_digits (value * 10 + (c - 48)) s else none

unfoldable pub parse_nat : Text → Option ℕ
unfolding read_digits
parse_nat [] = none
parse_nat (c ∷ s) = read_digits 0 (c ∷ s)

-- Space, tab, line feed, vertical tab, form feed, carriage return.
abbrev pub is_space : ℕ → Bool
is_space c = c == 32 || leb 9 c && leb c 13

unfoldable pub lstrip : Text → Text
lstrip [] = []
lstrip (c ∷ s) = if is_space c then lstrip s else c ∷ s

-- `s.strip()`
unfoldable pub strip : Text → Text
unfolding lstrip
strip s = reverse (lstrip (reverse (lstrip s)))

abbrev pub negated : Option ℕ → Option ℤ
negated none = none
negated (some zero) = some (pos 0)
negated (some (suc n)) = some (negsuc n)

abbrev pub positive : Option ℕ → Option ℤ
positive none = none
positive (some n) = some (pos n)

unfoldable pub parse_signed : Text → Option ℤ
unfolding parse_nat
parse_signed [] = none
parse_signed (c ∷ s) =
    if c == 45
    then negated (parse_nat s)
    else (if c == 43 then positive (parse_nat s) else positive (parse_nat (c ∷ s)))

-- `int(s)`; `none` is the ValueError.
unfoldable pub parse_int : Text → Option ℤ
unfolding strip parse_signed
parse_int s = parse_signed (strip s)

read_digits-decimal_from :
    (fuel n : ℕ) (rest : Text)
    → n < fuel
    → read_digits 0 (decimal_from fuel n rest) ≡ read_digits n rest
unfolding decimal_from read_digits
read_digits-decimal_from zero n rest h = ground arith
read_digits-decimal_from (suc fuel) n rest h =
    ground (arith, read_digits-decimal_from fuel (n / 10) ((48 + n % 10) ∷ rest))

decimal_from-ne-nil : (fuel n c : ℕ) (rest : Text) → decimal_from fuel n (c ∷ rest) ≢ []
unfolding decimal_from
decimal_from-ne-nil zero n c rest = ground arith
decimal_from-ne-nil (suc fuel) n c rest =
    if_ind (λ s. s ≢ []) (ltb n 10) (λ _. ground arith)
      (λ _. decimal_from-ne-nil fuel (n / 10) (48 + n % 10) (c ∷ rest))

decimal-ne-nil : (n : ℕ) → decimal n ≢ []
unfolding decimal decimal_from
decimal-ne-nil n =
    if_ind (λ s. s ≢ []) (ltb n 10) (λ _. ground arith)
      (λ _. decimal_from-ne-nil n (n / 10) (48 + n % 10) [])

parse_nat_lem : (s : Text) → s ≢ [] → parse_nat s ≡ read_digits 0 s
unfolding parse_nat
parse_nat_lem [] h = absurd (h refl)
parse_nat_lem (c ∷ s) h = refl

read_digits-decimal : (n : ℕ) → read_digits 0 (decimal n) ≡ some n
unfolding decimal read_digits
read_digits-decimal n = read_digits-decimal_from (suc n) n [] (omega arith)

-- A number is read back from its digits.
pub parse_nat-decimal : (n : ℕ) → parse_nat (decimal n) ≡ some n
parse_nat-decimal n =
    ground (arith, parse_nat_lem (decimal n) (decimal-ne-nil n), read_digits-decimal n)
