-- ===== src/Demangle/Decimal/Print.antt =====
-- print_to_with_precision of decimal_float of src/demangle.cxx. What it writes comes before the NUL.
use libcwd.Base.{
  ℕ, suc, zero, ◌+◌, ◌-◌, ◌/◌, ◌%◌, ◌^◌, List, [], ◌∷◌, ◌++◌, ltb, leb, ◌==◌, if◌then◌else◌, length,
  replicate, codes, drop,
}
use libcwd.Base.Int.{ℤ, pos, negsuc, ◌+ℤ◌, ◌-ℤ◌}
use libcwd.Demangle.Decimal.{DecimalFloat, digit_at, do_carry}

-- The four decimals of a digit of base 10000, highest first; what is 10000 or more goes to the first.
abbrev pub decimals : ℕ → List ℕ
decimals m = (m / 1000) ∷ (m % 1000 / 100) ∷ (m % 100 / 10) ∷ (m % 10) ∷ []

-- Those of a mantissa, highest first.
abbrev pub all_decimals : List ℕ → List ℕ
all_decimals [] = []
all_decimals (m ∷ ms) = all_decimals ms ++ decimals m

unfoldable pub leading_zeros : List ℕ → ℕ
leading_zeros [] = 0
leading_zeros (d ∷ ds) = let rest = leading_zeros ds in if d == 0 then rest + 1 else 0

abbrev pub add_at : ℕ → ℕ → List ℕ → List ℕ
add_at k i [] = []
add_at k zero (m ∷ ms) = (m + k) ∷ ms
add_at k (suc i) (m ∷ ms) = m ∷ add_at k i ms

-- Round off behind `precision` decimals.
unfoldable pub round_off : ℕ → DecimalFloat → DecimalFloat
round_off precision x =
    let cut = 19 - precision in
    let shift = 10 ^ (cut % 4 + 1) in
    let y = record x { mantissa = add_at (shift / 2) (cut / 4) x.mantissa } in
    if ltb precision 20
    then (if leb 10000 (digit_at y.mantissa (cut / 4)) then do_carry y else y)
    else x

-- The decimals behind the leading zeroes: `tz` counts the zeroes that are held back, and `written`
-- what was put out.
unfoldable pub put_decimals : ℕ → ℕ → List ℕ → List ℕ → List ℕ
put_decimals zero tz ds written = written
put_decimals (suc precision) tz [] written = written
put_decimals (suc precision) tz (d ∷ ds) written =
    let point = if length written == 1 then codes "." else [] in
    let with_digit = written ++ point ++ replicate tz 48 ++ (48 + d) ∷ [] in
    let is_zero = d == 0 in
    put_decimals precision (if is_zero then tz + 1 else 0) ds
      (if is_zero then written else with_digit)

-- At most three decimals of the exponent.
unfoldable pub put_exponent : ℕ → List ℕ
put_exponent n =
    let d = (48 + n % 10) ∷ [] in
    let dd = (48 + n % 100 / 10) ∷ d in
    if leb 100 n then (48 + n / 100) ∷ dd else if leb 10 n then dd else d

abbrev pub exponent_text : ℤ → List ℕ
exponent_text (pos zero) = []
exponent_text (pos (suc n)) = codes "e+" ++ put_exponent (suc n)
exponent_text (negsuc n) = codes "e-" ++ put_exponent (suc n)

unfoldable pub print_to_with_precision : ℕ → DecimalFloat → List ℕ
print_to_with_precision precision x =
    let precision' =
      if x.max_precision_reached
      then precision
      else precision + leading_zeros (all_decimals x.mantissa) in
    let tmp = round_off precision' x in
    let ds = all_decimals tmp.mantissa in
    let zeros = leading_zeros ds in
    put_decimals precision' 0 (drop zeros ds) []
    ++ exponent_text (tmp.exponent +ℤ (pos 19 -ℤ pos zeros))
